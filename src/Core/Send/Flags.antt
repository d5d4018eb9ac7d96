-- ===== src/Core/Send/Flags.antt =====
-- The flags of send.c: what the loop over their names computes.
use matlab_zmq.Mex.Memory.Laws.{
  Same-Quiet, Same-trans, free-Ends, Holds-Quiet, read_string-Ends, Quiet-refl, Same-refl, Same,
}
use matlab_zmq.Mex.Exec.{Outcome}
use matlab_zmq.Util.Conversions.FromM.Laws.{Fails-after, str_from_m-Ends, Fails, IsText, TextErrors}
use matlab_zmq.Core.Send.{configure_flag, Block, add_flag}
use matlab_zmq.Mex.Host.{IsLawful, Host}
use matlab_zmq.Mex.Memory.{Block, State}
use matlab_zmq.Prelude.{
  [], ◌∷◌, ◌∙◌, ap, str_eq_iff, inl, inr, up_to_zero, codes, refl, str_eq, ◌+◌, if◌then◌else◌, true,
  ◌||◌, ◌⊎◌, Bytes, bit_or, false, ℕ, Bool, List, Option, String, ◌≡◌, none, some,
}
use matlab_zmq.Mex.Exec.Ends.{throws, returns, Ends}
use matlab_zmq.Util.Conversions.FromM.{string_size}
use matlab_zmq.Mex.Exec.Ends

-- The C string that `str_from_m` reads from an array, if MATLAB gives one.
abbrev pub text_of : (H : Host) → H.Array → Option Bytes
text_of H a = elim (H.get_string a (string_size H a)) [ none ↦ none | some t ↦ some (up_to_zero t) ]

-- One of the arrays is this name.
abbrev pub names : (H : Host) → String → List H.Array → Bool
names H name [] = false
names H name (p ∷ ps) =
    elim (text_of H p) [ none ↦ false | some t ↦ str_eq t (codes name) ] || names H name ps

-- Each of the arrays is one of the two names.
abbrev pub AllFlags : (H : Host) → List H.Array → Type 0
AllFlags H [] = Unit
AllFlags H (p ∷ ps) =
    ((text_of H p ≡ some (codes "ZMQ_SNDMORE")) ⊎ (text_of H p ≡ some (codes "ZMQ_DONTWAIT")))
    × AllFlags H ps

-- The documented values of zmq.h.
pub record HasFlags (H : Host) : Type 0 where
  pub dontwait : H.constants.zmq_dontwait ≡ 1
  pub sndmore : H.constants.zmq_sndmore ≡ 2

abbrev pub flag_value : Bool → Bool → ℕ
flag_value more wait = (if more then 2 else 0) + (if wait then 1 else 0)

pub or_true : (b : Bool) → (b || true) ≡ true
or_true true = refl
or_true false = refl

pub or_false : (b : Bool) → (b || false) ≡ b
or_false true = refl
or_false false = refl

or_sndmore : (m w : Bool) → bit_or (flag_value m w) 2 ≡ flag_value true w
or_sndmore true true = refl
or_sndmore true false = refl
or_sndmore false true = refl
or_sndmore false false = refl

or_dontwait : (m w : Bool) → bit_or (flag_value m w) 1 ≡ flag_value m true
or_dontwait true true = refl
or_dontwait true false = refl
or_dontwait false true = refl
or_dontwait false false = refl

module _ (H : Host) where
  -- The errors of the loop over the flags.
  abbrev pub FlagErrors : String → String → Type 0
  FlagErrors invalid i = TextErrors H i ⊎ (i ≡ invalid)

module _ (H : Host) (flags : HasFlags H) where
  -- What a name of a flag adds.
  abbrev Adds : Bool → Bool → Bytes → ℕ → Type 0
  Adds m w name f =
      ((name ≡ codes "ZMQ_SNDMORE") × (f ≡ flag_value true w))
      ⊎ ((name ≡ codes "ZMQ_DONTWAIT") × (f ≡ flag_value m true))

  add_flag-Ends :
      (m w : Bool) (name : Bytes) (s : State H)
      → Ends
          (λ f t. (t ≡ s) × Adds m w name f)
          (λ e t. (t ≡ s) × (e.id ≡ "zmq:core:send:invalidFlag"))
          (add_flag H (flag_value m w) name s)
  add_flag-Ends m w name s =
      Ends.either (str_eq name (codes "ZMQ_SNDMORE")) _ _ s
        (λ e. returns (
          refl,
          inl ((str_eq_iff _ _).0 e, ap (bit_or (flag_value m w)) flags.sndmore ∙ or_sndmore m w),
        ))
        λ e.
          Ends.either (str_eq name (codes "ZMQ_DONTWAIT")) _ _ s
            (λ k. returns (
              refl,
              inr (
                (str_eq_iff _ _).0 k,
                ap (bit_or (flag_value m w)) flags.dontwait ∙ or_dontwait m w,
              ),
            ))
            (λ k. throws (refl, refl))

  -- The value of the flags, and that all names were known.
  abbrev pub Flags : Bool → Bool → List H.Array → ℕ → Type 0
  Flags m w params f =
      AllFlags H params
      × (f ≡ flag_value (m || names H "ZMQ_SNDMORE" params) (w || names H "ZMQ_DONTWAIT" params))

  more_Flags :
      (m w : Bool) (p : H.Array) (ps : List H.Array) (f : ℕ)
      → text_of H p ≡ some (codes "ZMQ_SNDMORE")
      → Flags true w ps f
      → Flags m w (p ∷ ps) f
  more_Flags m w p ps f e (all, v) = ((inl e, all), rw (e, or_true m) v)

  wait_Flags :
      (m w : Bool) (p : H.Array) (ps : List H.Array) (f : ℕ)
      → text_of H p ≡ some (codes "ZMQ_DONTWAIT")
      → Flags m true ps f
      → Flags m w (p ∷ ps) f
  wait_Flags m w p ps f e (all, v) = ((inr e, all), rw (e, or_true w) v)

  pub text_of-IsText :
      (p : H.Array) (b : Block) (is_text : IsText H p b)
      → text_of H p ≡ some (up_to_zero is_text.chars)
  text_of-IsText p b is_text = rw (is_text.given, text_of)

module _ (H : Host) (lawful : IsLawful H) (flags : HasFlags H) where
  abbrev Loop : List H.Array → Bool → Bool → State H → Outcome ℕ × State H → Type 0
  Loop params m w s =
      Ends (λ f t. Same s t × Flags H flags m w params f)
        (Fails (FlagErrors H "zmq:core:send:invalidFlag") s)

  at_value :
      (params : List H.Array) (m w : Bool) (f : ℕ) (s : State H)
      → f ≡ flag_value m w
      → Loop params m w s (configure_flag H (flag_value m w) params s)
      → Loop params m w s (configure_flag H f params s)
  at_value params m w f s e loop = rw e loop

  -- The rounds that are left, seen from the round before.
  earlier :
      (p : H.Array) (ps : List H.Array) (m w m' w' : Bool) (s t : State H) (r : Outcome ℕ × State H)
      → Same s t
      → ((g : ℕ) → Flags H flags m' w' ps g → Flags H flags m w (p ∷ ps) g)
      → Loop ps m' w' t r
      → Loop (p ∷ ps) m w s r
  earlier p ps m w m' w' s t r same weaken loop =
      Ends.mono loop (λ g u (same', fl). (Same-trans same same', weaken g fl))
        (λ e u f. Fails-after (λ i k. k) (Same-Quiet same) f)

  pub configure_flag-Ends :
      (params : List H.Array) (m w : Bool) (s : State H)
      → Ends
          (λ f t. Same s t × Flags H flags m w params f)
          (Fails (FlagErrors H "zmq:core:send:invalidFlag") s)
          (configure_flag H (flag_value m w) params s)
  unfolding configure_flag
  configure_flag-Ends [] m w s = returns (Same-refl s, (tt, rw (or_false m, or_false w)))
  configure_flag-Ends (p ∷ ps) m w s =
      Ends.bind
        (Ends.mono (str_from_m-Ends H lawful p s) (λ b u q. q)
          (λ e u f. Fails-after (λ i k. inl k) (Quiet-refl s) f))
        λ flag_str u (held, is_text).
          let name = up_to_zero is_text.chars in
          Ends.bind_value _ name u (read_string-Ends H flag_str.bytes u is_text.string) (
            Ends.bind_same _ u
              (Ends.mono (add_flag-Ends H flags m w name u) (λ f v q. q)
                (λ e v (now, known). record {
                  id_known = inr known;
                  quiet = rw now (Holds-Quiet held);
                }))
              λ f adds. Ends.bind (free-Ends H flag_str s.live u held.live) λ _ v freed.
                let same : Same s v = record {
                  live = freed.live;
                  calls = freed.calls ∙ held.calls;
                  warnings = freed.warnings ∙ held.warnings;
                } in
                let named = text_of-IsText H flags p flag_str is_text in
                elim adds [
                  | inl (e, value) ↦
                      earlier p ps m w true w s v _ same
                        (λ g fl. more_Flags H flags m w p ps g (named ∙ ap some e) fl)
                        (at_value ps true w f v value (configure_flag-Ends ps true w v))
                  | inr (e, value) ↦
                      earlier p ps m w m true s v _ same
                        (λ g fl. wait_Flags H flags m w p ps g (named ∙ ap some e) fl)
                        (at_value ps m true f v value (configure_flag-Ends ps m true v))
                ])
