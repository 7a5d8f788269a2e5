-- ===== src/Lib.antt =====
-- The Android sensor HAL for Bosch MEMS sensors (SMI230, SMI240, SMI330).
--
-- The HAL reads the sensors through sysfs files of the industrial I/O subsystem and offers them to Android.
-- An ISensorHal is one sensor: a SensorCore, which shares one device among several sensor types, or a
-- composite sensor, which is computed from an accelerometer and a gyroscope. The AIDL service wraps each
-- available one in a Sensor with a run loop, and hands what the loops read to the framework: through an
-- event queue, or through direct channels in shared memory.
--
-- The files and the code that they model:
--   Common      lists, maps, integers, texts and float operations that the other files share
--   Hwctl       sensors/hwctl/FileHandler.{h,cpp}: Stream (ReadHandler, WriteHandler), Number (isValidInteger,
--               std::stoi), RawSysfs (RawSysfsHandler), Available (isSensorAvailable); Decimals and Axes are
--               about contents that are integers
--   Core        sensors/core: Types (ISensorHal.h), SensorCore (SensorCore.{h,cpp}) with Rate and Power,
--               DirectChannel (DirectChannel.{h,cpp}) with Ring, Composite
--               (CompositeSensors.{h,cpp}) with Shared and World
--   Sensors     sensors/sensors: Data (the constructors of SMI230, SMI240 and SMI330), Smi330Imu with Odr,
--               Driver (setPowerMode and setSamplingRate of the classes), SensorList with Available
--   Aidl        sensors/aidl: the Sensor (Sensor.cpp) in Sensor, Placement, Events, Reports and SensorRun, and
--               the service (SensorsHalAidl.cpp) in WakeLock, DirectBuffer, Service, ServiceChannels and
--               AddSensors; Channels, Requests, Rates and Supply are about the requests to a Sensor, Matrix and
--               Rotation about the frame of its placement, Float32 and Rounds about the pace of its loop;
--               Decimation, Outstanding, Latency, Handles and Linked are about the service
--   Multihal    sensors/multihal. HalProxy (2.X/HalProxy.{h,cpp}) is in Handles (the index of a sub-HAL in a
--               handle), HalProxy (the calls), Setup (the list of sensors, dynamic sensors), Initialize
--               (initializeCommon and the threads), WakeRefs (the shared wake lock) and PendingWrites (the queue of
--               events); Callback is 2.X/ScopedWakelock.cpp, 2.X/HalProxyCallback.cpp and postEvents of
--               common/SensorsSubHal.cpp. Routing, Direct and Modes are about the calls, Waiting, Fifo and
--               Drain about the queue, Held, Counted and Unknown about posts and the wake lock, Restart about
--               a new start. AidlTypes and Convert are aidl/ConvertUtils.cpp, with RoundTrip, and HalProxyAidl
--               is aidl/HalProxyAidl.cpp
--   Subhal      sensors/multihal/common: the Sensor (Sensor.cpp) in Sensor, Placement, Reports and Run, and
--               ISensorsSubHalBase (SensorsSubHal.{h,cpp}) in Service, Channels and AddSensors. The files Same...
--               compare them with the code of Aidl: SameReports, SameRun and SameSensor the Sensor, SameMaps,
--               SameService and SameAdd the service. Proxied is about HalProxy with this sub-HAL alone
--   Hidl        sensors/2.X: Sensor (Sensor.cpp, where it is not the text of the sub-HAL's), and Sensors.h in
--               Service, Loops, Channels and Initialize. Versions is sensors/2.1/SensorsV2_1.{h,cpp} and
--               sensors/2.0/SensorsHalV2_0.h. Same compares them with Subhal, and Started is about what
--               initializeBase leaves
--   Tests       concrete values, and the theorems at them
--
-- A class is a record, and a method a function from the old to the new record, with the source's name. What
-- a method does to another object is returned: a SensorCore returns the calls of its driver, which
-- Sensors.Driver carries out on the files; a Sensor returns its calls of the ISensorHal and of the
-- callback, which Aidl.Service carries out. A method is one step, since it holds a mutex; two do not for
-- their whole length, and are taken as one step all the same: flush of a Sensor, which takes none, and
-- addDirectChannel with the period 0, which gives it up in between. A run loop is the function of one
-- round. A std::map is a list in the order of its keys. What is undefined in C++ (a write out of range, an
-- empty optional that is dereferenced) and an exception give `none` or an outcome of their own.
--
-- Numbers are natural numbers where the source's are not negative; an unsigned 32-bit counter wraps, and so
-- does the arithmetic of the wake lock. The signed counter of the ring of events is taken to wrap too,
-- though its overflow is undefined; the counts of samples in Subhal and Hidl are taken to stay below 2 ^
-- 31, and their products with a period below 2 ^ 63, while in Aidl an overflow of these is undefined.
-- Handles are 32-bit patterns. A `float` is a value of a parameter with the operations that the code uses,
-- of which no law is assumed, except for the deadline of the run loop: there the floats are integers, and
-- the rounding to 24 bits is computed. Three functions run on fuel: to_string with 20 digits, enough for 64
-- bits, the loop over the data rates with 31 halvings, enough for any rate below 2 ^ 31, and the rounding
-- to a float with 40 halvings, enough for 63 bits.
--
-- Parameters stand for what is not in this repository: the kernel's files (Sysfs), ashmem and mmap
-- (Platform, where mmap does not answer MAP_FAILED, which the code does not test for), the constants of the
-- AIDL interface (Interface), the parser of the XML configuration, and the answers of the clock, the
-- message queues and the wake lock (Answers, WakeAnswers, ServiceAnswers, PostAnswers, InitAnswers). To
-- HalProxy a sub-HAL is a parameter (SubHal), and so are HIDL's constants (Multihal.Types) and its union of
-- payloads (Hidl), of which it is assumed that a member that was written is read back. HIDL's
-- convertToSensorEvent, the answer of convertFromSharedMemInfo and the time that a flush event is left with
-- are arguments.
--
-- Not modelled: the wrapper of the callback in sensors/2.1, the loading of sub-HALs and the adapters of
-- their versions, the fusion of the composite sensors and the vector templates that it is written with
-- (sensors/core/utils), the entry points and the tests; memory barriers, delays, logging, and the memory
-- that is freed.
pub mod Common
pub mod Hwctl
pub mod Core
pub mod Sensors
pub mod Aidl
pub mod Multihal
pub mod Subhal
pub mod Hidl
pub mod Tests
