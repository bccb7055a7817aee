-- ===== src/Transfers/Manual.antt =====
-- What the handlers' reads rely on.
use marisa.Prelude.{ℕ, ◌≤◌, ◌<◌, ◌≡◌, ◌≢◌, ◌⊎◌, Bool, true, false, not, [], ◌++◌, Bytes, length}
use marisa.Transfers.{Asio}

-- What the documentation of asio says of the two reads, for a peer that does not pause for as long as
-- the timer waits: `unread` are the bytes that it sends before it ends its side or waits for an answer,
-- and nobody read yet; `ended` tells that it ends its side behind them. A read takes bytes from the
-- front, at most as many as its buffer holds, and one that ends because the socket was closed has an
-- error. async_read_some ends when it has a byte; async_read when its buffer is full, or when the peer
-- has ended, which is an error; with fewer bytes it waits, until the socket is closed.
pub record IsAsio (asio : Asio) : Type 0 where
  pub unread : asio.Wire → Bytes
  pub ended : asio.Wire → Bool
  pub some_order :
      (size : ℕ) (w : asio.Wire)
      → ((asio.async_read_some size w).0.bytes ++ unread (asio.async_read_some size w).1 ≡ unread w)
        × (length (asio.async_read_some size w).0.bytes ≤ size)
        × (((asio.async_read_some size w).0.error ≡ true)
            ⊎ ((asio.async_read_some size w).0.late ≡ false))
  pub some_ready :
      (size : ℕ) (w : asio.Wire)
      → 0 < size
      → unread w ≢ []
      → ((asio.async_read_some size w).0.error ≡ false)
        × ((asio.async_read_some size w).0.bytes ≢ [])
  pub full_order :
      (size : ℕ) (w : asio.Wire)
      → ((asio.async_read size w).0.bytes ++ unread (asio.async_read size w).1 ≡ unread w)
        × (length (asio.async_read size w).0.bytes ≤ size)
        × (((asio.async_read size w).0.error ≡ true) ⊎ ((asio.async_read size w).0.late ≡ false))
  pub full_short :
      (size : ℕ) (w : asio.Wire)
      → length (unread w) < size
      → ((asio.async_read size w).0.error ≡ true)
        × ((asio.async_read size w).0.bytes ≡ unread w)
        × ((asio.async_read size w).0.late ≡ not (ended w))
