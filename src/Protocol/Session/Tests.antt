-- ===== src/Protocol/Session/Tests.antt =====
-- Sessions run on a concrete wire: a transport that takes seven bytes at a time, answers from a script
-- and gives incoming data in pieces of three bytes, with a sink that appends.
use kairos_boot.Base.{
  ℕ, ◌≡◌, refl, Bytes, true, false, none, some, List, [], ◌∷◌, ◌++◌, length, take, drop, min, codes,
}
use kairos_boot.Base.Chars.{from_chars, digit_run, digit_in, hex}
use kairos_boot.Protocol.Response.{parse_response, parse_prefixed, has_prefix, data_response}
use kairos_boot.Protocol.Transport.{
  World, TransferSource, TransferResult, ok, fully_transferred, disconnected, not_transferred,
}
use kairos_boot.Protocol.Session.{Session, SessionOptions, session, is_ok, is_full}
use kairos_boot.Protocol.Session.Io.{
  begin, write_exact, write_loop, write_fault, read_fault, read_response, zeroed, store,
  read_terminal, terminal_loop, terminal_step, heard,
}
use kairos_boot.Protocol.Session.Download.{
  locked, command, download, download_source, download_locked, download_loop, download_step,
  check_streaming, repoison, send_payload, after_initial,
}
use kairos_boot.Protocol.Session.Settled.{Settled, command-Settled}
use kairos_boot.Protocol.Session.Settled.Downloads.{download-Settled, download_source-Settled}
use kairos_boot.Protocol.Session.Delivery.{StreamLaws, command-Sent}
use kairos_boot.Protocol.Session.Delivery.Payload.{download-Delivered, Delivered}
use kairos_boot.Protocol.Session.After.{After}

record Wire : Type 0 where
  sent : Bytes
  script : List Bytes
  incoming : Bytes
  stored : Bytes

abbrev moved : ℕ → TransferResult
moved n = record {
  status = ok;
  transferred = n;
  certainty = fully_transferred;
  truncated = false;
  detail = "";
  native_code = 0;
}

abbrev gone : TransferResult
gone = record (moved 0) { status = disconnected; certainty = not_transferred }

abbrev next_reply : List Bytes → Wire → TransferResult × Bytes × Wire
next_reply [] w = (gone, [], w)
next_reply (r ∷ rs) w = (moved (length r), r, record w { script = rs })

abbrev wire : World Wire
wire = record {
  write = λ bytes t w. (
    moved (min 7 (length bytes)),
    record w { sent = w.sent ++ take (min 7 (length bytes)) bytes },
  );
  read = λ n t w. next_reply w.script w;
  read_data = λ n t w. (
    moved (min (min 3 n) (length w.incoming)),
    take (min 3 n) w.incoming,
    record w { incoming = drop (min 3 n) w.incoming },
  );
  write_source = none;
  configure_transfer_permits = none;
  request_cancel = λ w. w;
  close = λ w. w;
  sink_write = λ o bytes w. (moved (length bytes), record w { stored = w.stored ++ bytes });
  allocates = λ n w. true;
}

abbrev options : SessionOptions
options = record {
  io_timeout = 30000;
  max_command_bytes = 4096;
  max_response_bytes = 256;
  max_informational_responses = 4;
  receive_chunk_bytes = 4;
}

abbrev scripted : List Bytes → Bytes → Session Wire
scripted replies incoming =
    session true options (record { sent = []; script = replies; incoming = incoming; stored = [] })

download_run :
    (download wire
      (codes "payload and more")
      (scripted (codes "INFOready" ∷ codes "DATA00000010" ∷ codes "OKAY" ∷ []) [])).1.world.sent
    ≡ codes "download:00000010payload and more"
unfolding session download locked download_locked download_loop download_step check_streaming
    repoison send_payload after_initial begin write_exact write_loop write_fault read_fault
    read_response read_terminal terminal_loop terminal_step heard zeroed store hex parse_response
    parse_prefixed has_prefix data_response from_chars digit_run digit_in is_ok is_full
download_run = refl

wire-StreamLaws : StreamLaws wire (λ w. w.sent)
wire-StreamLaws = record {
  write_takes = λ bytes t w _ _ _. refl;
  read_keeps = λ n t w. keeps w.script w;
}
  where
    keeps : (rs : List Bytes) (w : Wire) → (next_reply rs w).2.sent ≡ w.sent
    keeps [] w = refl
    keeps (r ∷ rs) w = refl

abbrev talk : Session Wire
talk = scripted (codes "INFOready" ∷ codes "DATA00000010" ∷ codes "OKAY" ∷ []) []

command-Settled_example : Settled talk (command wire (codes "getvar:version") talk)
command-Settled_example = command-Settled wire (codes "getvar:version") talk

download-Settled_example : Settled talk (download wire (codes "payload and more") talk)
download-Settled_example = download-Settled wire (codes "payload and more") talk

abbrev image : TransferSource
image = record { size = 16; read_exact = λ offset n. none }

download_source-Settled_example : Settled talk (download_source wire (some image) none talk)
download_source-Settled_example = download_source-Settled wire (some image) none talk

abbrev upload : Session Wire
upload = scripted (codes "DATA00000008" ∷ codes "OKAY" ∷ []) (codes "kairos b")

command-Sent_example :
    After
      (λ r t. t.world.sent ≡ codes "getvar:version")
      (command wire (codes "getvar:version") talk)
unfolding session
command-Sent_example = command-Sent wire (λ w. w.sent) wire-StreamLaws (codes "getvar:version") talk

download-Delivered_example :
    After
      (Delivered wire (λ w. w.sent) wire-StreamLaws 16 (codes "payload and more") talk)
      (download wire (codes "payload and more") talk)
download-Delivered_example =
    download-Delivered wire (λ w. w.sent) wire-StreamLaws (codes "payload and more") talk
