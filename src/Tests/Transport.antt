-- ===== src/Tests/Transport.antt =====
-- The theorems on the transports at concrete inputs.
use bhwi.Prelude.{
  ℕ, true, refl, ◌≤◌, ◌<◌, ◌≡◌, arith, List, [], ok, length, length-replicate, replicate, zero, suc,
  ◌+◌, ◌++◌, ◌∷◌, All, drop,
}
use bhwi.Transport.ColdcardHid
use bhwi.Transport.ColdcardHid.RoundTrip.{read_packets-request_packets}
use bhwi.Transport.BitBoxHid.{frames}
use bhwi.Transport.BitBoxHid as BitBoxHid
use bhwi.Transport.BitBoxHid.Frames.{reply}
use bhwi.Transport.BitBoxHid.Retry.{retry_packet, waits, left_over, exchange_waits}
use bhwi.Transport.LedgerHid
use bhwi.Transport.LedgerHid.RoundTrip.{delivered, read_loop-packets}

abbrev command : List ℕ
command = replicate 130 7

length-command : length command < 65536
length-command = omega (arith, length-replicate {A = ℕ} 130 7)

read_loop-packets_example :
    LedgerHid.read_loop 0 0 [] (delivered (LedgerHid.packets command)) ≡ ok command
read_loop-packets_example = read_loop-packets command length-command

command_nonempty : 1 ≤ length command
command_nonempty = omega (arith, length-replicate {A = ℕ} 130 7)

read_packets-request_packets_example :
    ColdcardHid.read_packets true [] (delivered (ColdcardHid.request_packets true command))
    ≡ ok command
read_packets-request_packets_example =
    read_packets-request_packets true command command_nonempty refl

abbrev taken : List ℕ
taken = replicate 140 64

All-replicate : (n : ℕ) → All (λ size. 64 ≤ size) (replicate n 64)
All-replicate zero = tt
All-replicate (suc n) = (omega arith, All-replicate n)

-- A device that is not ready once and then acknowledges.
exchange_waits_example :
    (packets : List (List ℕ)) × (frames (0 ∷ 9 ∷ []) ≡ ok packets)
    × (BitBoxHid.exchange
          (9 ∷ [])
          (left_over taken (waits ([] ∷ []) (reply (0 ∷ 7 ∷ 8 ∷ []) ++ [])) [])
        ≡ (
          left_over (drop (length packets + 1) taken) [] (([] ++ packets) ++ (retry_packet ∷ [])),
          ok (7 ∷ 8 ∷ []),
        ))
exchange_waits_example =
    exchange_waits 0 (9 ∷ []) (7 ∷ 8 ∷ []) taken ([] ∷ []) [] [] (omega arith) (omega arith)
      (omega arith, tt) (All-replicate 140) (omega (arith, length-replicate {A = ℕ} 140 64))
      (λ h. omega arith)
