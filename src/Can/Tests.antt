-- ===== src/Can/Tests.antt =====
-- Tests of libCSP/trunk/src/interfaces/csp_if_can.c.
use cubesat_space_protocol.Base.{
  ℕ, ◌+◌, ◌≡◌, [], ◌∷◌, ◌++◌, none, some, true, replicate, refl, length, subst, ap, ◌≤◌, arith,
}
use mathlib.Core.Option.{some-injective}
use cubesat_space_protocol.Header.{Packet, PacketId}
use cubesat_space_protocol.Endian.{ntoh16, hton16}
use cubesat_space_protocol.Can.{Buffered, Can, freed, posted, can_id, cfp_type}
use cubesat_space_protocol.Can.Pbuf.{pbuf_find, pbuf_new, free_element}
use cubesat_space_protocol.Can.Pbuf.Unsent.{IsUnsent}
use cubesat_space_protocol.Can.Pbuf.Find.{IsTidy, no_elements, next_element}
use cubesat_space_protocol.Can.Tx.{first_frame}
use cubesat_space_protocol.Can.Rx.{rx_element, rx_packet}
use cubesat_space_protocol.Can.Rx.Bounds.{no_overrun, rx_element-no_overrun}
use cubesat_space_protocol.Can.Transfer.{IsSendable}
use cubesat_space_protocol.Can.Transfer.Delivery.{Delivered, all_frames, receive}
use cubesat_space_protocol.Can.Transfer.Sent.{framed_all, transmitted, transmitted-all_frames}
use cubesat_space_protocol.Can.Transfer.Arrival.{timed, transmitted-Delivered}

abbrev sent_id : PacketId
sent_id = record { pri = 2; src = 5; dst = 10; dport = 20; sport = 33; flags = 1 }

abbrev sent : Packet
sent = record {
  quarantine = 0;
  timestamp = 0;
  length = 11;
  id = sent_id;
  contents = 1 ∷ 2 ∷ 3 ∷ 4 ∷ 5 ∷ 6 ∷ 7 ∷ 8 ∷ 9 ∷ 10 ∷ 11 ∷ [];
}

abbrev area : Buffered
area = record {
  address = 64;
  packet = record {
    quarantine = 0;
    timestamp = 0;
    length = 0;
    id = sent_id;
    contents = replicate 16 0;
  };
}

abbrev receiver : Can
receiver = record {
  pbuf = free_element ∷ free_element ∷ [];
  counters = record { tx_error = 0; rx_error = 0; frame = 0 };
  cfp_id = 0;
}

sent-IsSendable : IsSendable sent
sent-IsSendable = record { id_in = omega arith; within_mtu = omega arith; there = omega arith }

receiver-IsTidy : IsTidy receiver.pbuf
receiver-IsTidy = next_element (λ _. refl) (next_element (λ _. refl) no_elements)

abbrev sender : Can
sender = record receiver { cfp_id = 7 }

abbrev sent_from : Buffered
sent_from = record { address = 32; packet = sent }

sender-IsUnsent : IsUnsent sender.pbuf
sender-IsUnsent = (λ _. refl, (λ _. refl, tt))

-- Three frames: two bytes, eight, and the last.
transmitted-all_frames_example : transmitted (λ k. 50 + k) 40 true sender sent_from ≡ (
  true,
  record sender { pbuf = free_element ∷ free_element ∷ []; cfp_id = 8 },
  framed_all (all_frames (λ k. 100 + k) sent 7) ++ (freed 32 ∷ posted ∷ []),
)
unfolding pbuf_find pbuf_new
transmitted-all_frames_example =
    transmitted-all_frames (λ k. 50 + k) (λ k. 100 + k) 40 0 true sender sent_from sent-IsSendable
      (omega arith) receiver-IsTidy sender-IsUnsent refl refl

transmitted-Delivered_example : Delivered sent 64 16 receiver.pbuf 0 receiver [] (
    receive
      (some area)
      receiver
      (timed (λ n. 100 + n) 0 (transmitted (λ k. 50 + k) 40 true sender sent_from).2))
unfolding pbuf_find pbuf_new
transmitted-Delivered_example =
    transmitted-Delivered (λ k. 50 + k) (λ n. 100 + n) 40 0 0 true sender sent_from receiver area
      sent-IsSendable (omega arith) receiver-IsTidy sender-IsUnsent refl refl (omega arith)
      (omega arith) receiver-IsTidy refl refl

area_has_room :
    (b : Buffered) (n : ℕ)
    → rx_packet none (some area) ≡ some (b, n)
    → 11 ≤ length b.packet.contents
area_has_room b n q =
    subst (λ (b : Buffered). 11 ≤ length b.packet.contents)
      (ap (λ (r : Buffered × ℕ). r.0) (some-injective _ _ q)) (omega arith)

rx_element-no_overrun_example :
    no_overrun (rx_element (some area) (first_frame sent 7) free_element).events ≡ true
unfolding first_frame cfp_type can_id ntoh16 hton16
rx_element-no_overrun_example =
    rx_element-no_overrun (some area) (first_frame sent 7) free_element (λ _. area_has_room)
      (λ q. absurd (q refl))
