-- ===== src/Tests/Usb.antt =====
-- Runs of the USB connection.
use adb_daemon_rs.Base.{
  ◌≡◌, refl, [], ◌∷◌, ◌++◌, done, ok, ready, arith, none, All, sym, ap, some, Result, nat_eq,
  append-nil,
}
use adb_daemon_rs.Words.{IsByte}
use adb_daemon_rs.Transport.Error.{Error}
use adb_daemon_rs.Transport.Message.{AdbMessage, wrte, new_message, to_vec}
use adb_daemon_rs.Transport.Message.Codec.{to_vec-All}
use adb_daemon_rs.Transport.Endpoint.{Buffer, new_buffer}
use adb_daemon_rs.Transport.Usb.{Usb, next_multiple_of, poll_read_message, write_message}
use adb_daemon_rs.Transport.Usb.Reading.{poll_read_message-to_vec}
use adb_daemon_rs.Transport.Message.Codec.{to_vec-All}
use adb_daemon_rs.Transport.Usb.Framing.{stream, EndsShort, write_message_frames}
use adb_daemon_rs.Transport.Usb.Opening.{
  Device, bulk, inward, outward, open_device, new_usb, IsReady, OpensEmpty, new_usb-IsReady,
}
use adb_daemon_rs.Tests.Setup.{scripted, Script, idle, idle_usb, some_bytes}

abbrev sent : AdbMessage
sent = new_message wrte 4 9 some_bytes

write_message_frames_example :
    (v : Usb scripted scripted) × (write_message scripted scripted idle_usb sent ≡ done (ok tt, v))
    × (stream v.out_endpoint.waiting ≡ to_vec sent.header ++ sent.payload)
    × EndsShort 512 v.out_endpoint.waiting
write_message_frames_example =
    write_message_frames scripted scripted idle_usb sent refl (λ e. cc) refl

-- A connection with two transfers that are not finished, of which one will complete.
abbrev sending_usb : Usb scripted scripted
sending_usb = record idle_usb {
  out_endpoint = record {
    waiting = new_buffer 24 ∷ new_buffer 3 ∷ [];
    packets = record { bytes = []; valid = tt } ∷ [];
  };
}

sent_valid : All IsByte (to_vec sent.header)
sent_valid = to_vec-All sent.header

-- A device that sends the message.
abbrev answering : Script
answering = record {
  waiting = [];
  packets =
      record { bytes = to_vec sent.header; valid = sent_valid }
      ∷ record { bytes = some_bytes; valid = omega arith }
      ∷ [];
}

abbrev answering_usb : Usb scripted scripted
answering_usb = record idle_usb { in_endpoint = answering }

abbrev header_buffer : Buffer
header_buffer = record { requested = 512; bytes = to_vec sent.header }

abbrev payload_buffer : Buffer
payload_buffer = record { requested = 512; bytes = some_bytes }

abbrev last_packet : Script
last_packet = record {
  waiting = [];
  packets = record { bytes = some_bytes; valid = omega arith } ∷ [];
}

-- The read for the next header is queued behind the message.
abbrev answered : Script
answered = record { waiting = header_buffer ∷ []; packets = [] }

poll_read_message-to_vec_example :
    poll_read_message scripted scripted answering_usb
    ≡ done (ready (ok sent), record answering_usb { in_endpoint = answered; in_header = none })
unfolding next_multiple_of
poll_read_message-to_vec_example =
    poll_read_message-to_vec scripted scripted answering_usb sent header_buffer payload_buffer []
      last_packet answered
      (record {
        arg0_fits = omega arith;
        arg1_fits = omega arith;
        data_length_fits = omega arith;
        crc32_fits = omega arith;
        magic_fits = omega arith;
      })
      (omega arith) refl refl refl (sym (append-nil _)) refl refl

-- A device with one interface that is not for adb, and one that is.
abbrev device : Device scripted scripted
device = record {
  interfaces =
      record { class = 6; subclass = 1; protocol = 1; number = 0 }
      ∷ record { class = 0xff; subclass = 0x42; protocol = 0x1; number = 2 }
      ∷ [];
  opened = ok tt;
  claim_interface = λ number. ok (
      some (
        record { transfer_type = bulk; direction = outward; max_packet_size = 512; address = 1 }
        ∷ record { transfer_type = bulk; direction = inward; max_packet_size = 512; address = 129 }
        ∷ []));
  in_endpoint = λ address. ok idle;
  out_endpoint = λ address. ok idle;
}

same_state : (s t : Script) → Path (Result Error Script) (ok s) (ok t) → s ≡ t
same_state s t e = cc

device-OpensEmpty : OpensEmpty scripted scripted device
device-OpensEmpty = (
  (λ a s e. ap (λ (t : Script). t.waiting) (sym (same_state idle s e))),
  (λ a s e. ap (λ (t : Script). t.waiting) (sym (same_state idle s e))),
)

device_opens : new_usb scripted scripted device ≡ ok idle_usb
unfolding new_usb open_device
device_opens = refl

new_usb-IsReady_example : IsReady scripted scripted idle_usb
new_usb-IsReady_example =
    new_usb-IsReady scripted scripted device idle_usb device-OpensEmpty device_opens
