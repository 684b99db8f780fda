-- ===== src/Tcp/TxLoop/Ends.antt =====
-- `_tx_loop` comes to its end.
use tipy.Common.{
  ℕ, zero, suc, ◌+◌, ◌-◌, ◌≤◌, ◌<◌, ◌≡◌, ◌∙◌, inl, inr, refl, ap, Bool, true, false, Option, none,
  some, List, [], ◌∷◌, ◌++◌, arith, Bool-cases, length, concat, take, drop, min, leb, ◌==◌, ◌||◌,
  ◌&&◌, if◌then◌else◌, length-append, length-take, length-drop, leb→le, leb→lt, take-append-drop,
  sym, append_assoc,
}
use tipy.Tcp.Types.{State, Outcome, done, type_error, parse_error, looping, Tcpcb, FloatOps}
use tipy.Tcp.Action.{Action, pure, gets, modify, read_clock, ◌>>=◌, ◌>>◌}
use tipy.Tcp.Timer.{start_rtx_timer}
use tipy.Tcp.Output.{tx_tcp, rtt_probe}
use tipy.Tcp.TxLoop.{
  generate_segment_payload, Progress, cut, tx_fuel, count_new_data, send_data, finish_with_fin,
  tx_rounds, tx_data, is_null, tcp_max_tx_bytes,
}

-- The payload of a segment is the front of the drained views, at most `n` bytes: with the views
-- left it makes them up again, no byte lost or twice.
pub generate_segment_payload_lem :
    (views : List (List ℕ)) (n : ℕ)
    → let (payload, rest) = generate_segment_payload views n in
      (payload ++ concat rest ≡ concat views) × (length payload ≤ n)
unfolding generate_segment_payload
generate_segment_payload_lem [] n = (refl, omega arith)
generate_segment_payload_lem (first ∷ rest) n = elim (Bool-cases (leb (length first) n)) [
  | inl e ↦ rw e (refl, leb→le (length first) n e)
  | inr e ↦ rw e (
    sym (append_assoc (take n first) (drop n first) (concat rest))
        ∙ ap (λ front. front ++ concat rest) (take-append-drop n first),
    omega (arith, length-take n first),
  )
]

-- the bytes and views left
abbrev size : List (List ℕ) → ℕ
size views = length (concat views) + length views

generate_shrinks :
    (views : List (List ℕ)) (n : ℕ)
    → 0 < n
    → 0 < length (concat views)
    → size (generate_segment_payload views n).1 < size views
unfolding generate_segment_payload
generate_shrinks [] n pos nonempty = nonempty
generate_shrinks (first ∷ rest) n pos nonempty = elim (Bool-cases (leb (length first) n)) [
  | inl e ↦ rw e (omega (arith, length-append first (concat rest)))
  | inr e ↦ rw e (
      omega (
        arith,
        leb→lt (length first) n e,
        length-append first (concat rest),
        length-append (drop n first) (concat rest),
        length-drop n first,
      ))
]

-- what is left of the count of bytes
left_over :
    (views : List (List ℕ)) (n : ℕ)
    → let (payload, rest) = generate_segment_payload views n in
      length (concat views) - length payload ≡ length (concat rest)
left_over views n =
    let (payload, rest) = generate_segment_payload views n in
    let (whole, _) = generate_segment_payload_lem views n in
    omega (arith, ap (length {0}) whole, length-append payload (concat rest))

-- sending leaves the segment size of the peer as it is
pub record KeepsMss {R A : Type 0} (m : Action R A) : Type 0 where
  pub at : (c : Tcpcb R) → (m c).1.remote_mss ≡ c.remote_mss

or-false : (a b : Bool) → (a || b) ≡ false → a ≡ false
or-false false b h = refl
or-false true b h = h

-- a round that is not the last takes a view or a byte
progress :
    (v : Progress) (mss fuel : ℕ)
    → (v.dlen == 0) ≡ false
    → v.dlen ≡ length (concat v.views)
    → 0 < mss
    → leb (cut mss v).1.snd_wnd 0 ≡ false
    → size v.views < suc fuel
    → size (cut mss v).1.views < fuel
progress v mss fuel nz e pos open_window enough =
    let room : 0 < v.snd_wnd = omega (arith, leb→lt (cut mss v).1.snd_wnd 0 open_window) in
    let some_left : 0 < v.dlen = ground (arith, nz) in
    omega
      (arith, generate_shrinks v.views (min mss (min v.snd_wnd v.dlen)) (omega arith) (omega arith))

module _ {R A : Type 0} where
  KeepsMss-bind :
      {B : Type 0} (m : Action R B) (f : B → Action R A)
      → KeepsMss m
      → ((b : B) → KeepsMss (f b))
      → KeepsMss (m >>= f)
  unfolding ◌>>=◌
  KeepsMss-bind m f km kf = record { at = λ c. let (b, c') = m c in (kf b).at c' ∙ km.at c }

  KeepsMss-if :
      (b : Bool) (m n : Action R A) → KeepsMss m → KeepsMss n → KeepsMss (if b then m else n)
  KeepsMss-if true m n km kn = km
  KeepsMss-if false m n km kn = kn

  KeepsMss-option :
      {B : Type 0} (o : Option B) (m : Action R A) (f : B → Action R A)
      → KeepsMss m
      → ((b : B) → KeepsMss (f b))
      → KeepsMss (elim o [ none ↦ m | some b ↦ f b ])
  KeepsMss-option none m f km kf = km
  KeepsMss-option (some b) m f km kf = kf b

module _ {R : Type 0} ⦃fl : FloatOps R⦄ where
  rtt_probe-KeepsMss : KeepsMss {R = R} rtt_probe
  unfolding rtt_probe gets pure read_clock modify
  rtt_probe-KeepsMss =
      KeepsMss-bind _ _ (record { at = λ c. refl })
        λ rtt.
          KeepsMss-option rtt _ _
            (KeepsMss-bind _ _ (record { at = λ c. refl }) λ now. record { at = λ c. refl })
            λ t. record { at = λ c. refl }

  pub send_data-KeepsMss :
      (payload : List ℕ) (fin : Bool) → KeepsMss {R = R} (send_data payload fin)
  unfolding send_data count_new_data tx_tcp gets modify pure
  send_data-KeepsMss payload fin =
      KeepsMss-bind _ _ (record { at = λ c. refl })
        λ _.
          KeepsMss-bind _ _ (record { at = λ c. refl })
            λ _.
              KeepsMss-bind _ _ (record { at = λ c. refl })
                λ new.
                  KeepsMss-if new _ _
                    (KeepsMss-bind _ _ (record { at = λ c. refl }) λ _. rtt_probe-KeepsMss)
                    (record { at = λ c. refl })

  choice-done :
      (b b' : Bool) (m n k : Action R Outcome) (c : Tcpcb R)
      → (m c).0 ≡ done
      → (n c).0 ≡ done
      → (b' ≡ false → (k c).0 ≡ done)
      → ((elim b as (λ _. Action R Outcome) [ true ↦ m | false ↦ elim b' [ true ↦ n | false ↦ k ] ])
          c).0
        ≡ done
  choice-done true b' m n k c hm hn hk = hm
  choice-done false true m n k c hm hn hk = hn
  choice-done false false m n k c hm hn hk = hk refl

  finish-done : (next : Option State) (c : Tcpcb R) → (finish_with_fin next c).0 ≡ done
  unfolding finish_with_fin ◌>>=◌ pure
  finish-done next c = refl

  tx_rounds-done :
      (fuel : ℕ) (fin_wanted : Bool) (next : Option State) (v : Progress) (c : Tcpcb R)
      → 0 < c.remote_mss
      → v.dlen ≡ length (concat v.views)
      → size v.views < fuel
      → (tx_rounds fuel fin_wanted next v c).0 ≡ done
  unfolding tx_rounds ◌>>=◌ gets pure finish_with_fin
  tx_rounds-done zero fin_wanted next v c mss e enough = absurd (omega arith)
  tx_rounds-done (suc fuel) fin_wanted next v c mss e enough =
      let mss_now = c.remote_mss in
      let payload = (cut mss_now v).0 in
      let v' = (cut mss_now v).1 in
      let fin = fin_wanted && is_null v'.views in
      elim (Bool-cases (v.dlen == 0)) [
        | inl z ↦ rw z refl
        | inr nz ↦ rw nz (
            choice-done fin (leb v'.snd_wnd 0 || leb tcp_max_tx_bytes v'.bytes_send_counter)
              (finish_with_fin next) (pure done) (tx_rounds fuel fin_wanted next v')
              (send_data payload fin c).1 (finish-done next (send_data payload fin c).1) refl
              λ open_window.
                tx_rounds-done fuel fin_wanted next v' (send_data payload fin c).1
                  (rw ((send_data-KeepsMss payload fin).at c) mss)
                  (ap (λ d. d - length payload) e
                    ∙ left_over v.views (min mss_now (min v.snd_wnd v.dlen)))
                  (progress v mss_now fuel nz e mss
                    (or-false _ (leb tcp_max_tx_bytes v'.bytes_send_counter) open_window) enough))
      ]

  timer-done :
      (o : Outcome) (c : Tcpcb R)
      → o ≡ done
      → ((elim o as (λ _. Action R Outcome) [
        | done ↦ (start_rtx_timer >> pure done)
        | other ↦ pure other
      ])
          c).0
        ≡ done
  unfolding ◌>>=◌ pure
  timer-done done c e = refl
  timer-done type_error c e = e
  timer-done parse_error c e = e
  timer-done looping c e = e

  -- With a segment size that is not 0, the loop ends on every list of views and every block: the
  -- rounds counted are enough, so it does not run on.
  pub tx_data-done :
      (views : List (List ℕ)) (next : Option State) (fin_wanted : Bool) (c : Tcpcb R)
      → 0 < c.remote_mss
      → (tx_data views next fin_wanted c).0 ≡ done
  unfolding tx_data ◌>>=◌ gets pure
  tx_data-done views next fin_wanted c mss = timer-done _ _ (
      tx_rounds-done (tx_fuel views) fin_wanted next
        (record {
          views = views;
          dlen = length (concat views);
          snd_wnd = c.snd_wnd;
          bytes_send_counter = 0;
        })
        c mss refl (omega arith))
