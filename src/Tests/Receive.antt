-- ===== src/Tests/Receive.antt =====
-- Transfers of one block: complete, refused by the device, and cancelled by the sender.
use lite_forth.Common.{ℕ, ◌≡◌, refl, List, [], ◌∷◌, Option, some, none, replicate, map}
use lite_forth.Ymrecv.{
  soh, crc16, crc_from, crc_bits, get_bytes, packet_body, check_packet, read_packet,
}
use lite_forth.Ymrecv.Packets.{frame}
use lite_forth.Ymrecv.Start.{
  Wire, stx, eot, source_error, purge, cancel, start_byte, await_rounds, header_name, header_rest,
  digits_from, header_length, header_loop,
}
use lite_forth.Ymrecv.Receive.{
  Written, Received, ymr_receive, put_byte, has_magic, wrong_magic, store_bytes, take_packet,
  on_packet, data_round, data_loop, finish, receive_file, on_header,
}
use lite_forth.Ymrecv.Receive.Ends.{ymr_receive-ends}
use lite_forth.Ymrecv.Receive.Safe.{IsSafe, ymr_receive-IsSafe}

-- Packet 0: the name "a" and the length 4096.
abbrev first_packet : List ℕ
first_packet = 97 ∷ 0 ∷ 52 ∷ 48 ∷ 57 ∷ 54 ∷ replicate 122 0

abbrev quarter : List ℕ
quarter = replicate 1024 7

abbrev sender : Wire
sender = record {
  line =
      some soh
      ∷ frame 0 first_packet (
          some stx
          ∷ frame 1 quarter (
              some stx
              ∷ frame 2 quarter (
                  some stx
                  ∷ frame 3 quarter (
                      some stx
                      ∷ frame 4 quarter
                          (some eot ∷ some eot ∷ some soh ∷ frame 0 (replicate 128 0) [])))));
  sent = [];
}

abbrev zeros : ℕ → ℕ
zeros i = 0

-- A device that takes every write, and one that takes none.
abbrev accepting : Written → ℕ → (ℕ → ℕ) → ℕ
accepting before b bytes = 0

abbrev summary : Option Received → List ℕ
summary none = []
summary (some r) = r.result ∷ r.size ∷ map (λ (w : ℕ × (ℕ → ℕ)). w.0) r.written

complete_run : summary (ymr_receive accepting none 4 3000 zeros zeros sender) ≡ 0 ∷ 4096 ∷ 0 ∷ []
unfolding ymr_receive purge cancel start_byte await_rounds header_name header_rest digits_from
    header_length header_loop put_byte has_magic wrong_magic store_bytes take_packet on_packet
    data_round data_loop finish receive_file on_header crc16 crc_from crc_bits get_bytes packet_body
    check_packet read_packet
complete_run = refl

abbrev refusing : Written → ℕ → (ℕ → ℕ) → ℕ
refusing before b bytes = 17

refused_run : summary (ymr_receive refusing none 4 3000 zeros zeros sender) ≡ 17 ∷ 0 ∷ 0 ∷ []
unfolding ymr_receive purge cancel start_byte await_rounds header_name header_rest digits_from
    header_length header_loop put_byte has_magic wrong_magic store_bytes take_packet on_packet
    data_round data_loop finish receive_file on_header crc16 crc_from crc_bits get_bytes packet_body
    check_packet read_packet
refused_run = refl

-- The magic is not in block 0: nothing is written.
wrong_magic_run :
    summary (ymr_receive accepting (some (76 ∷ [])) 4 3000 zeros zeros sender)
    ≡ source_error ∷ 0 ∷ []
unfolding ymr_receive purge cancel start_byte await_rounds header_name header_rest digits_from
    header_length header_loop put_byte has_magic wrong_magic store_bytes take_packet on_packet
    data_round data_loop finish receive_file on_header crc16 crc_from crc_bits get_bytes packet_body
    check_packet read_packet
wrong_magic_run = refl

ymr_receive-ends_example :
    (r : Received) × (ymr_receive accepting none 4 3000 zeros zeros sender ≡ some r)
ymr_receive-ends_example = ymr_receive-ends accepting none 4 3000 zeros zeros sender

-- What the transfer ends with.
abbrev transfer : (r : Received) × (ymr_receive accepting none 4 3000 zeros zeros sender ≡ some r)
transfer = ymr_receive-ends accepting none 4 3000 zeros zeros sender

ymr_receive-IsSafe_example : IsSafe accepting transfer.0
ymr_receive-IsSafe_example =
    ymr_receive-IsSafe accepting none 4 3000 zeros zeros sender transfer.0 transfer.1
