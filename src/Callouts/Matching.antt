-- ===== src/Callouts/Matching.antt =====
-- The port that src/WPFCalloutDriver/src/Callouts.cpp matches, over any sequence of packets.
use basic_windows_drivers.Base.{
  ℕ, ◌≡◌, ◌≢◌, refl, sym, subst, ◌⊎◌, inl, inr, true, not, ◌&&◌, List, [], ◌∷◌, ◌==◌, Bool-cases,
  All, arith,
}
use basic_windows_drivers.Callouts.System.{
  Callout, outbound_ipv4, inbound_icmp_error, outbound_icmp_error, outbound_tcp, inbound_tcp,
  inbound_ipv4,
}
use basic_windows_drivers.Callouts.Classify.{
  Packet, Inspection, action_continue, Line, matched_on_port, print, of_running_process, classify,
  classify_inbound_tcp, classify_outbound_tcp, classify_outbound_ipv4, classify_inbound_ipv4,
  classify_inbound_icmp_error, classify_outbound_icmp_error, run,
}

-- A process whose filter names it has sent an outbound TCP packet from the port.
pub data Sent (port : ℕ) : List (Callout × Packet) → Type 0 where
  sent_now :
      (p : Packet) (earlier : List (Callout × Packet))
      → of_running_process p ≡ true
      → p.local_port ≡ port
      → Sent port ((outbound_tcp, p) ∷ earlier)
  sent_before :
      (c : Callout) (p : Packet) {earlier : List (Callout × Packet)}
      → Sent port earlier
      → Sent port ((c, p) ∷ earlier)

-- No port yet, or one that was sent from.
MatchedPort : ℕ → List (Callout × Packet) → Type 0
MatchedPort port packets = (port ≡ 0) ⊎ Sent port packets

abbrev pub Reported : List (Callout × Packet) → ℕ → Type 0
Reported packets port = (port ≢ 0) × Sent port packets

abbrev pub nothing_matched : Inspection
nothing_matched = record { matched_port = 0; log = []; action_type = action_continue }

module _ (c : Callout) (p : Packet) (earlier : List (Callout × Packet)) where
  Reported-later :
      (ports : List ℕ) → All (Reported earlier) ports → All (Reported ((c, p) ∷ earlier)) ports
  Reported-later [] h = tt
  Reported-later (port ∷ ports) ((n, s), h) = ((n, sent_before c p s), Reported-later ports h)

  MatchedPort-later : (port : ℕ) → MatchedPort port earlier → MatchedPort port ((c, p) ∷ earlier)
  unfolding MatchedPort
  MatchedPort-later port (inl e) = inl e
  MatchedPort-later port (inr s) = inr (sent_before c p s)

-- The ports that Inbound::TCP reported as matched.
abbrev pub reported : List Line → List ℕ
reported [] = []
reported (matched_on_port port ∷ log) = port ∷ reported log
reported (_ ∷ log) = reported log

abbrev Sound : List (Callout × Packet) → ℕ → List ℕ → Type 0
Sound packets port ports = MatchedPort port packets × All (Reported packets) ports

outbound_tcp-Sound :
    (p : Packet) (earlier : List (Callout × Packet)) (i : Inspection)
    → Sound ((outbound_tcp, p) ∷ earlier) i.matched_port (reported i.log)
    → let i' = classify_outbound_tcp p i in
      Sound ((outbound_tcp, p) ∷ earlier) i'.matched_port (reported i'.log)
unfolding classify_outbound_tcp print MatchedPort
outbound_tcp-Sound p earlier i (h, r) = elim (Bool-cases (of_running_process p)) [
  | inl e ↦ rw e ((inr (sent_now p earlier e refl), r))
  | inr e ↦ rw e ((h, r))
]

inbound_tcp-Sound :
    (p : Packet) (earlier : List (Callout × Packet)) (i : Inspection)
    → Sound ((inbound_tcp, p) ∷ earlier) i.matched_port (reported i.log)
    → let i' = classify_inbound_tcp p i in
      Sound ((inbound_tcp, p) ∷ earlier) i'.matched_port (reported i'.log)
unfolding classify_inbound_tcp print MatchedPort
inbound_tcp-Sound p earlier i (h, r) =
    let test =
      not (i.matched_port == 0) && not (p.local_port == 0) && p.local_port == i.matched_port in
    elim (Bool-cases test) [
      | inl e ↦
          let same : p.local_port ≡ i.matched_port = ground arith in
          let set : i.matched_port ≢ 0 = ground arith in
          elim h [
            | inl zero_port ↦ absurd (set zero_port)
            | inr sent ↦
                let here = subst (Reported ((inbound_tcp, p) ∷ earlier)) (sym same) (set, sent) in
                rw e ((inr sent, (here, r)))
          ]
      | inr e ↦ rw e ((h, r))
    ]

outbound_ipv4-Sound :
    (p : Packet) (i : Inspection)
    → let i' = classify_outbound_ipv4 p i in
      (i'.matched_port ≡ i.matched_port) × (reported i'.log ≡ reported i.log)
unfolding classify_outbound_ipv4 print
outbound_ipv4-Sound p i = ground arith

Sound-later :
    (c : Callout) (p : Packet) (earlier : List (Callout × Packet)) (i : Inspection)
    → Sound earlier i.matched_port (reported i.log)
    → Sound ((c, p) ∷ earlier) i.matched_port (reported i.log)
Sound-later c p earlier i (h, r) =
    (MatchedPort-later c p earlier i.matched_port h, Reported-later c p earlier (reported i.log) r)

classify-Sound :
    (c : Callout) (p : Packet) (earlier : List (Callout × Packet)) (i : Inspection)
    → Sound earlier i.matched_port (reported i.log)
    → let i' = classify c p i in Sound ((c, p) ∷ earlier) i'.matched_port (reported i'.log)
unfolding classify classify_inbound_ipv4 classify_inbound_icmp_error classify_outbound_icmp_error
    print
classify-Sound outbound_tcp p earlier i s =
    outbound_tcp-Sound p earlier i (Sound-later outbound_tcp p earlier i s)
classify-Sound inbound_tcp p earlier i s =
    inbound_tcp-Sound p earlier i (Sound-later inbound_tcp p earlier i s)
classify-Sound outbound_ipv4 p earlier i s =
    rw ((outbound_ipv4-Sound p i).0, (outbound_ipv4-Sound p i).1)
      (Sound-later outbound_ipv4 p earlier i s)
classify-Sound inbound_icmp_error p earlier i s = Sound-later inbound_icmp_error p earlier i s
classify-Sound outbound_icmp_error p earlier i s = Sound-later outbound_icmp_error p earlier i s
classify-Sound inbound_ipv4 p earlier i s = Sound-later inbound_ipv4 p earlier i s

run-Sound :
    (packets : List (Callout × Packet))
    → let i = run packets nothing_matched in Sound packets i.matched_port (reported i.log)
unfolding run MatchedPort
run-Sound [] = (inl refl, tt)
run-Sound ((c, p) ∷ earlier) =
    classify-Sound c p earlier (run earlier nothing_matched) (run-Sound earlier)

-- Over any sequence of packets from the start, every port that Inbound::TCP reports as matched is not
-- 0, and an earlier outbound TCP packet was sent from it by the process that its filter names.
pub run-Reported :
    (packets : List (Callout × Packet))
    → All (Reported packets) (reported (run packets nothing_matched).log)
run-Reported packets = (run-Sound packets).1
