-- ===== src/Hwctl/Stream.antt =====
-- ReadHandler and WriteHandler of sensors/hwctl/FileHandler.{h,cpp}. The files themselves belong to
-- the kernel: `Sysfs` says what can be opened and what is read, and records what was written.
use bosch_mems_android_hal.Common.{Bool, true, false, List, ◌∷◌, ◌++◌, Bytes, if◌then◌else◌, not}

pub record Sysfs : Type 0 where
  pub readable : Bytes → Bool  -- an ifstream on the path opens
  pub content : Bytes → Bytes
  pub writable : Bytes → Bool  -- an ofstream on the path opens
  pub accepts : Bytes → Bytes → Bool  -- the stream does not fail on this content
  pub written : List (Bytes × Bytes)  -- path and content, newest first

-- The `int` results: 0 and -1.
pub data Status : Type 0 where
  success failure : Status

abbrev pub is_success : Status → Bool
is_success success = true
is_success failure = false

pub record ReadHandler : Type 0 where
  pub file_name : Bytes
  pub is_open : Bool

unfoldable pub make_read_handler : Sysfs → Bytes → Bytes → ReadHandler
make_read_handler fs path file = record {
  file_name = path ++ file;
  is_open = fs.readable (path ++ file);
}

-- The content at the time of the call, from the beginning of the file; on an error the caller's
-- string stays as it was.
unfoldable pub read : Sysfs → ReadHandler → Bytes → Status × Bytes
read fs h result = if not h.is_open then (failure, result) else (success, fs.content h.file_name)

pub record WriteHandler : Type 0 where
  pub file_name : Bytes
  pub is_open : Bool

unfoldable pub make_write_handler : Sysfs → Bytes → Bytes → WriteHandler
make_write_handler fs path file = record {
  file_name = path ++ file;
  is_open = fs.writable (path ++ file);
}

unfoldable pub write : Sysfs → WriteHandler → Bytes → Status × Sysfs
write fs h content =
    if not h.is_open
    then (failure, fs)
    else if not (fs.accepts h.file_name content)
    then (failure, fs)
    else (success, record fs { written = (h.file_name, content) ∷ fs.written })

-- The constructor that writes: `{ WriteHandler handler(path, file, content); }`. Its status is lost.
unfoldable pub write_file : Sysfs → Bytes → Bytes → Bytes → Sysfs
unfolding make_write_handler write
write_file fs path file content = (write fs (make_write_handler fs path file) content).1
