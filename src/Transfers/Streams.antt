-- ===== src/Transfers/Streams.antt =====
-- What a handler reads of a body, in the order in which the peer sent it.
use marisa.Prelude.{ℕ, ◌≡◌, ◌⊎◌, Bool, List, [], ◌∷◌, ◌++◌, Bytes, ok}
use marisa.Connection.{Connection, setup_timeout_timer}
use marisa.Transfers.{Asio, Io, Transport, read_request}
use marisa.Transfers.Manual.{IsAsio}
use marisa.Transfers.Reads.{IsTransport}

abbrev pub concat : List Bytes → Bytes
concat [] = []
concat (b ∷ bs) = b ++ concat bs

module _ (M Regex : Type 0) (asio : Asio) (mode_async : Bool)
    (transport : Transport M Regex asio) where
  open asio use {Wire}

  -- Reads of a handler that succeed, one behind the other, with what they give.
  pub data Reads : Bytes → Io M Regex asio → List Bytes → Bytes → Io M Regex asio → Type 0 where
    done : {body : Bytes} {io : Io M Regex asio} → Reads body io [] body io
    read :
        {body body' body'' : Bytes} {io io' io'' : Io M Regex asio} {chunks : List Bytes} (size : ℕ)
        (chunk : Bytes)
        → read_request M Regex asio mode_async transport size body io ≡ (ok chunk, (body', io'))
        → Reads body' io' chunks body'' io''
        → Reads body io (chunk ∷ chunks) body'' io''

  module _ (laws : IsAsio asio) (known : IsTransport M Regex asio laws transport) where
    open laws use {unread}

    -- The session is untouched, or its timer waits.
    abbrev pub Timed : (io io' : Io M Regex asio) → Type 0
    Timed io io' =
        (io'.session ≡ io.session) ⊎ (io'.session ≡ setup_timeout_timer M Regex io.session)
