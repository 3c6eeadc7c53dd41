-- ===== src/Tests/Transports.antt =====
-- Transports, heartbeats and close reasons at concrete inputs.
use conspire.Prelude.{◌≤◌, ◌≡◌, refl, true, false, [], ◌∷◌, none, some, arith, length}
use conspire.Prelude.Int.{pos}
use conspire.Prelude.Bytes.{codes}
use conspire.Session.Generation.{replace}
use conspire.Heartbeat
use conspire.Heartbeat.{run-IsSingle, tick_lem}
use conspire.Rooms.Host.{idle}
use conspire.Rooms.Peer.{
  Peer, make_peer, replace_socket, invalidate_socket_if_current, detach_transport, detach_current,
  ping_write_completed, on_ping, on_pong, on_close, heartbeat_timeout, write_error, remote_close,
}
use conspire.Rooms.Peer.CloseDetail.{
  bounded_close_detail, bound_loop, max_bytes, bounded_close_detail_lem,
}
use conspire.Rooms.Peer.Transport.{
  replace_socket_fences, invalidates, protocol_fails, closes, end_all, closed_count,
  close_counts_once,
}

abbrev ann : Peer
ann = make_peer 7 (codes "ann") (pos 1) 0

replace_socket_fences_example :
    (invalidate_socket_if_current (replace_socket ann (some 9) 5).0 1 heartbeat_timeout idle
      ≡ ((replace_socket ann (some 9) 5).0, idle, false))
    × (detach_transport (replace_socket ann (some 9) 5).0 (some 7) 1
        ≡ ((replace_socket ann (some 9) 5).0, false))
    × (detach_transport (replace_socket ann (some 9) 5).0 (some 9) 1
        ≡ ((replace_socket ann (some 9) 5).0, false))
    × (detach_current (replace_socket ann (some 9) 5).0 (some 7)
        ≡ ((replace_socket ann (some 9) 5).0, false))
    × (ping_write_completed (replace_socket ann (some 9) 5).0 1 true
        ≡ ((replace_socket ann (some 9) 5).0, false))
    × (on_ping (replace_socket ann (some 9) 5).0 (some 7) 6
        ≡ ((replace_socket ann (some 9) 5).0, false))
    × (on_pong (replace_socket ann (some 9) 5).0 (some 7) 6 ≡ (replace_socket ann (some 9) 5).0)
    × (on_close (replace_socket ann (some 9) 5).0 (some 7) 1000 none idle
        ≡ ((replace_socket ann (some 9) 5).0, idle))
unfolding make_peer replace Heartbeat.start
replace_socket_fences_example =
    replace_socket_fences ann 7 9 5 6 1000 none heartbeat_timeout true idle
      (record {
        range = omega arith;
        fence_generation = refl;
        fence_socket = refl;
        beat_generation = refl;
      })
      (omega arith)

close_counts_once_example :
    (closed_count (
        end_all
          (ann, idle)
          (closes (some 7) 1000 none ∷ protocol_fails ∷ invalidates write_error ∷ []))
      ≡ 1)
    × ((end_all
          (ann, idle)
          (closes (some 7) 1000 none
            ∷ protocol_fails
            ∷ invalidates write_error
            ∷ [])).0.close_reason
        ≡ remote_close)
unfolding make_peer
close_counts_once_example =
    close_counts_once ann 7 (closes (some 7) 1000 none) idle
      (protocol_fails ∷ invalidates write_error ∷ []) refl refl refl refl (λ e. cc e)

run-IsSingle_example : Heartbeat.IsSingle (
    Heartbeat.run
      (Heartbeat.activate (Heartbeat.start 0 1) 0 2)
      (Heartbeat.ticks 40_000_000_000 ∷ Heartbeat.writes 2 true ∷ []))
run-IsSingle_example =
    run-IsSingle (Heartbeat.start 0 1) 0 2
      (Heartbeat.ticks 40_000_000_000 ∷ Heartbeat.writes 2 true ∷ [])

bounded_close_detail_lem_example :
    (length (bounded_close_detail (some (65 ∷ 0xc3 ∷ []))) ≤ max_bytes)
    × (bound_loop 5 [] (65 ∷ 0xc3 ∷ []) ≡ bounded_close_detail (some (65 ∷ 0xc3 ∷ [])))
bounded_close_detail_lem_example = bounded_close_detail_lem (65 ∷ 0xc3 ∷ []) 3
