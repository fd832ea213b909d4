-- ===== src/Transfer/Tests.antt =====
-- A transfer of three bytes with a loss of the link between them (quelay-agent/src/active_stream.rs,
-- quelay-agent/src/rate_limiter.rs), and what the theorems say of it.
use quelay.Common.{
  ◌≡◌, ◌≤◌, refl, inl, inr, [], ◌∷◌, true, false, some, length, take, arith, u64_max, Occurs,
}
use quelay.Framing.{Chunk}
use quelay.Framing
use quelay.Spool.{new, push, head_offset, slice_from, on_tcp_read, handle_eof}
use quelay.Pump.{
  running, draining, exited, StreamPump, link_down, link_up, finish, drain_step, after_loop,
  send_fin, send_chunk, on_ticket, on_cmd, on_cmd_running, on_cmd_waiting,
}
use quelay.Uplink.{try_send_finish, on_msg, on_stream, AckTask, listening}
use quelay.Uplink
use quelay.Downlink.{
  Downlink, returned, started, on_chunk, write_new, periodic_ack, fire, give_up, on_fin,
  on_read_error, deliver_reconnect_stream,
}
use quelay.Downlink
use quelay.Domain.Callback.{stream_done, stream_failed, unknown, chunk_gap}
use quelay.Transfer.{
  Half, live, dead, half, half_write, half_shutdown, Transfer, opened, pumped, told, asked,
  received, reconnected, Step, tcp_read, ticket, drain, command, ack_stream_error, data_ready,
  reconnect, chunk, old_chunk, fin, read_error, accept_reconnect, Reachable, start, step,
}
use quelay.Transfer
use quelay.Transfer.Silent.{now, later, late_link_is_silent}
use quelay.Transfer.Safety.{
  delivered_prefix, done_is_complete, no_gap, replay_is_accepted, pump_never_panics,
}

-- The client's bytes are read, and the pump has a budget of two.
abbrev budgeted : Transfer
budgeted = record (opened 0) {
  input = 1 ∷ 2 ∷ 3 ∷ [];
  spool = record { buf = 1 ∷ 2 ∷ 3 ∷ []; bytes_acked = 0; head = 3 };
  pump = record { q = 0; done = false; finishing = false; mode = draining 2 };
}

budgeted_run : Reachable 0 0 budgeted
unfolding opened new on_tcp_read push on_ticket
budgeted_run =
    step
      (step start (tcp_read (1 ∷ 2 ∷ 3 ∷ []) (λ e. omega arith) refl (omega arith) (omega arith)))
      (ticket 2)

-- Two bytes are delivered and one is on the wire when the sender gives the stream up.
abbrev lost : Transfer
lost = record budgeted {
  tx = dead;
  pump = record { q = 3; done = false; finishing = false; mode = running };
  commands = link_down ∷ link_up (live [] false) ∷ [];
  task = record (Uplink.new 0) { phase = listening };
  down = record started { bytes_written = 2; client = 1 ∷ 2 ∷ [] };
  current = false;
  old_wire = record { stream_offset = 2; payload = 3 ∷ [] } ∷ [];
}

lost_run : Reachable 0 0 lost
unfolding opened new on_ticket drain_step after_loop send_chunk head_offset slice_from half_write
    pumped told on_msg try_send_finish reconnected on_stream Transfer.give_up received on_chunk
    write_new periodic_ack started Uplink.new
lost_run =
    step
      (step
        (step
          (step
            (step
              (step
                (step (step budgeted_run (drain true 9 2 _ refl refl)) (drain true 9 0 _ refl refl))
                (chunk true _ _ _ refl refl refl))
              (ticket 1))
            (drain true 9 1 _ refl refl))
          (drain true 9 0 _ refl refl))
        (ack_stream_error 0 refl))
      (reconnect refl)

-- The receiver reads what is left of the old stream and takes the new one; the input ends.
abbrev resumed : Transfer
resumed = record lost {
  spool = record { buf = 1 ∷ 2 ∷ 3 ∷ []; bytes_acked = 0; head = u64_max };
  tx = live [] false;
  pump = record { q = 0; done = false; finishing = false; mode = running };
  commands = finish ∷ [];
  task = record (Uplink.new 0) { finish_sent = true };
  down = record started { bytes_written = 3; client = 1 ∷ 2 ∷ 3 ∷ [] };
  current = true;
  old_wire = [];
}

resumed_run : Reachable 0 0 resumed
unfolding opened new on_tcp_read handle_eof on_cmd on_cmd_running on_cmd_waiting drain_step
    after_loop send_chunk head_offset slice_from half_write pumped asked try_send_finish received
    on_chunk write_new periodic_ack started Uplink.new on_read_error Downlink.on_stream fire
    deliver_reconnect_stream
resumed_run =
    step
      (step
        (step
          (step
            (step
              (step (step lost_run (old_chunk true _ _ refl refl refl))
                (command _ _ refl (inl refl)))
              (command _ _ refl (inr refl)))
            (read_error refl))
          (accept_reconnect refl refl refl))
        (tcp_read [] (λ e. omega arith) refl (omega arith) (omega arith)))
      data_ready

-- What is replayed is skipped, and FIN is read.
abbrev finished : Transfer
finished = record lost {
  spool = record { buf = 1 ∷ 2 ∷ 3 ∷ []; bytes_acked = 0; head = u64_max };
  tx = live [] true;
  pump = record { q = 3; done = true; finishing = true; mode = exited };
  commands = [];
  task = record (Uplink.new 0) { finish_sent = true };
  replies = Framing.done ∷ [];
  down = record {
    bytes_written = 3;
    last_acked = 0;
    phase = returned;
    client = 1 ∷ 2 ∷ 3 ∷ [];
    callbacks = stream_done 3 0 ∷ [];
  };
  current = true;
  old_wire = [];
}

finished_run : Reachable 0 0 finished
unfolding opened new on_tcp_read handle_eof on_ticket on_cmd on_cmd_running on_cmd_waiting
    drain_step after_loop send_fin send_chunk head_offset slice_from half_write half_shutdown pumped
    asked try_send_finish received on_chunk write_new periodic_ack started Uplink.new on_read_error
    Downlink.on_stream fire deliver_reconnect_stream on_fin
finished_run =
    step
      (step
        (step
          (step (step (step resumed_run (command _ _ refl (inl refl))) (ticket 10))
            (drain true 9 10 _ refl refl))
          (drain true 9 7 _ refl refl))
        (chunk true _ _ _ refl refl refl))
      (fin refl refl refl)

delivered_prefix_example :
    (lost.down.client ≡ take 2 lost.input) × (lost.down.bytes_written ≤ length lost.input)
delivered_prefix_example = delivered_prefix 0 0 lost lost_run

done_is_complete_example :
    (finished.down.client ≡ finished.input) × (3 ≡ length finished.input) × (u64_max ≡ u64_max)
done_is_complete_example = done_is_complete 0 0 finished 3 0 finished_run ([], [], refl)

no_gap_example : ¬ Occurs (stream_failed unknown (chunk_gap 2 3)) finished.down.callbacks
no_gap_example = no_gap 0 0 finished unknown 2 3 finished_run

replay_is_accepted_example :
    (lost.spool.bytes_acked ≤ lost.down.bytes_written)
    × (deliver_reconnect_stream lost.down.bytes_written lost.offer ≡ true)
replay_is_accepted_example = replay_is_accepted 0 0 lost lost_run

pump_never_panics_example :
    (r : Half × StreamPump) × (drain_step
        (half true)
        1
        budgeted.spool
        2
        (budgeted.tx, budgeted.pump)
      ≡ some r)
pump_never_panics_example = pump_never_panics 0 0 budgeted true 1 2 budgeted_run refl

-- The receiver is done, but the stream fails before its reply is read.
abbrev unanswered : Transfer
unanswered = record finished {
  commands = link_down ∷ [];
  task = record (Uplink.new 0) { finish_sent = true; phase = Uplink.reconnecting };
}

unanswered_run : Reachable 0 0 unanswered
unfolding told on_msg try_send_finish Uplink.new
unanswered_run = step finished_run (ack_stream_error 0 refl)

late_link_is_silent_example :
    ((asked
        (reconnected unanswered)
        (try_send_finish (reconnected unanswered).spool (reconnected unanswered).task)).task.phase
      ≡ Uplink.finished)
    × ((asked (reconnected unanswered) (
          try_send_finish
            (reconnected unanswered).spool
            (reconnected unanswered).task)).task.callbacks
        ≡ [])
late_link_is_silent_example =
    late_link_is_silent 0 0 unanswered _ unanswered_run refl refl (later now data_ready)
