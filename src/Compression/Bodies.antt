-- ===== src/Compression/Bodies.antt =====
-- What a compressing response puts on the wire: its chunks decode to a stream that zlib made of what
-- was written.
use marisa.Prelude.{
  ℤ, ℕ, ◌^◌, ◌<◌, ◌≡◌, Option, some, List, [], ◌∷◌, Bytes, length, Result, ok, and_go_on,
}
use marisa.Generator.{as_unsigned}
use marisa.Generator.Head.{IsTimeout}
use marisa.Deflate.{uint, Zlib, Out}
use marisa.Deflate.Manual.{IsZlib}
use marisa.Response.{Response, end as end_response}
use marisa.Response.Chunks.{Write}
use marisa.Coding.{Coding}
use marisa.Compression.{Overrider, write_compressed}
use marisa.Compression.Streams.{Between}

module _ (z : Zlib) (timeout max : ℤ) (buf_size : ℕ) where
  -- The writes of a handler, and its end.
  unfoldable pub write_each : (fuel : ℕ) → List Write → Overrider z → Option (Result (Overrider z))
  write_each fuel [] c = some (ok c)
  write_each fuel ((h, s, blocking) ∷ ws) c =
      and_go_on (write_compressed z timeout max buf_size fuel h s blocking c) (write_each fuel ws)

  -- Its length fits into 32 bits.
  abbrev pub IsShort : Write → Type 0
  IsShort (h, s, blocking) = length s < 2 ^ 32

  module _ {inflate : Bytes → Option Bytes} (laws : IsZlib z inflate)
      (small_timeout : IsTimeout timeout) (small_max : as_unsigned max < 65536)
      (positive : 0 < buf_size) (fits : uint buf_size ≡ buf_size) (small : buf_size < 16 ^ 12)
      (r0 : Response) where
    abbrev Goes : Response → Out z → (c e : Bytes) → Type 0
    Goes = Between z timeout max small_timeout small_max buf_size positive fits small r0 laws
