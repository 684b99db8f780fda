-- ===== src/Tcp/TxLoop/Stuck.antt =====
-- `_tx_loop` with a peer whose segment size is 0.
use tipy.Common.{
  ℕ, zero, suc, ◌<◌, ◌≡◌, ◌∙◌, refl, [], min, Bool, true, false, Option, List, ◌∷◌, arith, length,
  leb, ◌||◌, ◌&&◌, ◌==◌,
}
use tipy.Tcp.Types.{State, Outcome, done, looping, Tcpcb, FloatOps}
use tipy.Tcp.Action.{Action, ◌>>=◌, gets, pure}
use tipy.Tcp.TxLoop.{
  Progress, cut, generate_segment_payload, tcp_max_tx_bytes, is_null, send_data, finish_with_fin,
  tx_rounds,
}
use tipy.Tcp.TxLoop.Ends.{send_data-KeepsMss}

generate-zero :
    (n : ℕ) (first : List ℕ) (rest : List (List ℕ))
    → n ≡ 0
    → 0 < length first
    → generate_segment_payload (first ∷ rest) n ≡ ([], first ∷ rest)
unfolding generate_segment_payload
generate-zero n first rest e nonempty =
    let more : leb (length first) 0 ≡ false = ground arith in rw (e, more) refl

-- a round with segments of no byte leaves the variables of the loop
cut-zero :
    (mss : ℕ) (v : Progress) (first : List ℕ) (rest : List (List ℕ))
    → mss ≡ 0
    → v.views ≡ first ∷ rest
    → 0 < length first
    → let v' = (cut mss v).1 in
      (v'.views ≡ first ∷ rest)
      × (v'.dlen ≡ v.dlen)
      × (v'.snd_wnd ≡ v.snd_wnd)
      × (v'.bytes_send_counter ≡ v.bytes_send_counter)
cut-zero mss v first rest z e nonempty =
    let none_cut =
      generate-zero (min mss (min v.snd_wnd v.dlen)) first rest (omega arith) nonempty in
    rw (e, none_cut) (refl, omega arith, omega arith, omega arith)

is_null-cons :
    (fin_wanted : Bool) (views : List (List ℕ)) (first : List ℕ) (rest : List (List ℕ))
    → views ≡ first ∷ rest
    → (fin_wanted && is_null views) ≡ false
is_null-cons true views first rest e = rw e refl
is_null-cons false views first rest e = refl

module _ {R : Type 0} where
  next_round :
      (b b' : Bool) (m n k : Action R Outcome) (c : Tcpcb R)
      → b ≡ false
      → b' ≡ false
      → (k c).0 ≡ looping
      → ((elim b as (λ _. Action R Outcome) [ true ↦ m | false ↦ elim b' [ true ↦ n | false ↦ k ] ])
          c).0
        ≡ looping
  next_round b b' m n k c e e' h = rw (e, e') h

module _ {R : Type 0} ⦃fl : FloatOps R⦄ where
  -- Against a peer whose segment size is 0, with bytes to send and room in its window, the loop
  -- does not end after any number of rounds.
  pub tx_rounds-looping :
      (fuel : ℕ) (fin_wanted : Bool) (next : Option State) (v : Progress) (c : Tcpcb R)
      (first : List ℕ) (rest : List (List ℕ))
      → c.remote_mss ≡ 0
      → v.views ≡ first ∷ rest
      → 0 < length first
      → 0 < v.dlen
      → 0 < v.snd_wnd
      → v.bytes_send_counter < tcp_max_tx_bytes
      → (tx_rounds fuel fin_wanted next v c).0 ≡ looping
  unfolding tx_rounds ◌>>=◌ gets pure
  tx_rounds-looping zero fin_wanted next v c first rest mss e nonempty left room few = refl
  tx_rounds-looping (suc fuel) fin_wanted next v c first rest mss e nonempty left room few =
      let v' = (cut c.remote_mss v).1 in
      let payload = (cut c.remote_mss v).0 in
      let fin = fin_wanted && is_null v'.views in
      let c' = (send_data payload fin c).1 in
      let (views, dlen, wnd, count) = cut-zero c.remote_mss v first rest mss e nonempty in
      let unfinished : (v.dlen == 0) ≡ false = ground arith in
      let going : (leb v'.snd_wnd 0 || leb tcp_max_tx_bytes v'.bytes_send_counter) ≡ false =
        ground arith in
      rw unfinished (
        next_round fin (leb v'.snd_wnd 0 || leb tcp_max_tx_bytes v'.bytes_send_counter)
          (finish_with_fin next) (pure done) (tx_rounds fuel fin_wanted next v') c'
          (is_null-cons fin_wanted v'.views first rest views) going
          (tx_rounds-looping fuel fin_wanted next v' c' first rest
            ((send_data-KeepsMss payload fin).at c ∙ mss) views nonempty (omega arith) (omega arith)
            (omega arith)))
