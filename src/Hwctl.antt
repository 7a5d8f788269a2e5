-- ===== src/Hwctl.antt =====
-- sensors/hwctl/FileHandler.{h,cpp}: access to sysfs files.
pub mod Stream
pub mod Number
pub mod RawSysfs
pub mod Available
pub mod Decimals
pub mod Axes
