-- ===== src/Core/Recv/Flags.antt =====
-- The options of recv.c: where they start, and what the loop over their names computes.
use matlab_zmq.Core.Recv.{
  add_option, Bytes, str_eq, of_bytes, to_bytes, length, codes, bit_or, List, ℕ, configure_flag,
  given_length,
}
use matlab_zmq.Prelude.{
  Bytes, inr, str_eq_iff, ap, ◌∙◌, str_eq, up_to_zero, arith, inl, take_all, take, length, ◌+◌,
  ◌||◌, codes, true, bit_or, false, if◌then◌else◌, ◌≡◌, Bool, List, ℕ, [], ◌∷◌, some, refl,
}
use matlab_zmq.Mex.Memory.Laws.{
  Holds-Quiet, Same-Quiet, Same-trans, free-Ends, read-Ends, read_string-Ends, Quiet-refl,
  Same-refl, Same,
}
use matlab_zmq.Mex.Exec.Ends.{throws, returns, Ends}
use matlab_zmq.Core.Send.Flags.{or_true, or_false, text_of, HasFlags, FlagErrors, text_of-IsText}
use matlab_zmq.Prelude.Words.{of_bytes-to_bytes, of_bytes, to_bytes, length-to_bytes}
use matlab_zmq.Util.Conversions.FromM.Laws.{Fails-after, str_from_m-Ends, size_t_from_m-Ends, Fails}
use matlab_zmq.Mex.Exec.{Outcome}
use matlab_zmq.Mex.Memory.{State}
use matlab_zmq.Mex.Host.{Host, IsLawful}
use matlab_zmq.Mex.Exec.Ends

-- Each of the arrays is the name of the flag.
abbrev pub AllDontwait : (H : Host) → List H.Array → Type 0
AllDontwait H [] = Unit
AllDontwait H (p ∷ ps) = (text_of H p ≡ some (codes "ZMQ_DONTWAIT")) × AllDontwait H ps

abbrev pub wait_value : Bool → ℕ
wait_value wait = if wait then 1 else 0

abbrev pub is_given : {A : Type 0} → List A → Bool
is_given [] = false
is_given (a ∷ rest) = true

or_one : (w : Bool) → bit_or (wait_value w) 1 ≡ 1
or_one true = refl
or_one false = refl

module _ (H : Host) (lawful : IsLawful H) (flags : HasFlags H) where
  abbrev Loop : List H.Array → Bool → State H → Outcome ℕ × State H → Type 0
  Loop ps w s =
      Ends (λ f t. Same s t × AllDontwait H ps × (f ≡ wait_value (w || is_given ps)))
        (Fails (FlagErrors H "zmq:core:recv:invalidFlag") s)

  at_value :
      (ps : List H.Array) (w : Bool) (f : ℕ) (s : State H)
      → f ≡ wait_value w
      → Loop ps w s (configure_flag H (wait_value w) ps s)
      → Loop ps w s (configure_flag H f ps s)
  at_value ps w f s e loop = rw e loop

  -- The name is the flag's, and the flag is set.
  abbrev IsWait : Bytes → ℕ → Type 0
  IsWait name f = (name ≡ codes "ZMQ_DONTWAIT") × (f ≡ wait_value true)

  add_option-Ends :
      (w : Bool) (name : Bytes) (s : State H)
      → Ends
          (λ f t. (t ≡ s) × IsWait name f)
          (λ e t. (t ≡ s) × (e.id ≡ "zmq:core:recv:invalidFlag"))
          (add_option H (wait_value w) name s)
  add_option-Ends w name s =
      Ends.either (str_eq name (codes "ZMQ_DONTWAIT")) _ _ s
        (λ k.
          returns
            (refl, ((str_eq_iff _ _).0 k, ap (bit_or (wait_value w)) flags.dontwait ∙ or_one w)))
        (λ k. throws (refl, refl))

  -- The loop returns only where each name is `ZMQ_DONTWAIT`, and adds 1 if there is one, however
  -- often; another name makes it throw. Where it returns, every block is given back.
  pub configure_flag-AllDontwait :
      (ps : List H.Array) (w : Bool) (s : State H)
      → Ends
          (λ f t. Same s t × AllDontwait H ps × (f ≡ wait_value (w || is_given ps)))
          (Fails (FlagErrors H "zmq:core:recv:invalidFlag") s)
          (configure_flag H (wait_value w) ps s)
  unfolding configure_flag
  configure_flag-AllDontwait [] w s = returns (Same-refl s, tt, rw (or_false w))
  configure_flag-AllDontwait (p ∷ ps) w s =
      Ends.bind
        (Ends.mono (str_from_m-Ends H lawful p s) (λ b u q. q)
          (λ e u f. Fails-after (λ i k. inl k) (Quiet-refl s) f))
        λ flag_str u (held, is_text).
          let name = up_to_zero is_text.chars in
          Ends.bind_value _ name u (read_string-Ends H flag_str.bytes u is_text.string) (
            Ends.bind_same _ u
              (Ends.mono (add_option-Ends w name u) (λ f v q. q)
                (λ e v (now, known). record {
                  id_known = inr known;
                  quiet = rw now (Holds-Quiet held);
                }))
              λ f (known, value). Ends.bind (free-Ends H flag_str s.live u held.live) λ _ v freed.
                let same : Same s v = record {
                  live = freed.live;
                  calls = freed.calls ∙ held.calls;
                  warnings = freed.warnings ∙ held.warnings;
                } in
                let named = text_of-IsText H flags p flag_str is_text ∙ ap some known in
                Ends.mono (at_value ps true f v value (configure_flag-AllDontwait ps true v))
                  (λ g x (same', all, sum).
                    (Same-trans same same', (named, all), rw (or_true w) sum))
                  (λ e x f. Fails-after (λ i k. k) (Same-Quiet same) f))

  pub given_length-Ends :
      (p : H.Array) (i : ℕ) (s : State H)
      → H.casts_to_uint64 p ≡ true
      → Ends
          (λ (n, start) t. Same s t × (n ≡ H.double_to_uint64 (H.get_scalar p)) × (start ≡ i + 1))
          (Fails (λ j. j ≡ "util:calloc") s)
          (given_length H p i s)
  unfolding given_length
  given_length-Ends p i s defined =
      let x = H.double_to_uint64 (H.get_scalar p) in
      Ends.bind (size_t_from_m-Ends H p s defined) λ input t (held, value).
        let size : length input.bytes ≡ 8 = rw value (length-to_bytes 8 x) in
        let whole : take 8 input.bytes ≡ to_bytes 8 x =
          rw value (take_all 8 (to_bytes 8 x) (omega (arith, length-to_bytes 8 x))) in
        let number : of_bytes (to_bytes 8 x) ≡ x =
          of_bytes-to_bytes 8 x (lawful.uint64_range p defined) in
        Ends.bind_value _ (to_bytes 8 x) t
          (Ends.mono (read-Ends H 8 input.bytes t (omega (arith, size)))
            (λ y u (e, now). (e ∙ whole, now)) (λ e u f. f))
          (Ends.bind (free-Ends H input s.live t held.live) λ _ u freed. returns (
            record {
              live = freed.live;
              calls = freed.calls ∙ held.calls;
              warnings = freed.warnings ∙ held.warnings;
            },
            number,
            refl,
          ))
