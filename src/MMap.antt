-- ===== src/MMap.antt =====
-- Source/Types/MMap.cpp: map_file, which the constructor with a path calls. What the system answers for
-- the path is an argument: open or lseek fails, or the file has some bytes, and mmap would map them
-- or not. mmap of no bytes fails.
use marisa.Prelude.{Bool, true, false, [], ◌∷◌, Bytes, Result, ok, raise, system_error}

pub data File : Type 0 where
  cannot_open no_size : File
  has_bytes : (maps : Bool) → Bytes → File

unfoldable pub map_file : File → Result Bytes
map_file cannot_open = raise system_error
map_file no_size = raise system_error
map_file (has_bytes maps []) = raise system_error
map_file (has_bytes true (c ∷ s)) = ok (c ∷ s)
map_file (has_bytes false (c ∷ s)) = raise system_error
