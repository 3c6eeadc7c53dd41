-- ===== src/Rooms/Host.antt =====
-- What a peer acts on outside itself: the counters, the connections that it invalidates and the
-- coroutines that it hands to the executor of the framework.
use conspire.Prelude.{ℕ, List, [], ◌∷◌, increment}
use conspire.Prelude.Int.{ℤ}
use conspire.Statistics.{Statistics, zeroes}

pub record Host : Type 0 where
  pub statistics : Statistics
  -- socket->getConnection().invalidate(), newest first
  pub invalidated : List ℕ
  -- m_asyncExecutor->execute<DrainCoroutine>, by the peer, newest first
  pub drains : List ℤ

abbrev pub idle : Host
idle = record { statistics = zeroes; invalidated = []; drains = [] }

abbrev pub count_transport_closed : Host → Host
count_transport_closed h = record h {
  statistics = record h.statistics {
    peer_transport_closed = increment h.statistics.peer_transport_closed;
  };
}

abbrev pub invalidate : ℕ → Host → Host
invalidate socket h = record h { invalidated = socket ∷ h.invalidated }

abbrev pub execute_drain : ℤ → Host → Host
execute_drain peer h = record h { drains = peer ∷ h.drains }
