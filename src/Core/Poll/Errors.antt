-- ===== src/Core/Poll/Errors.antt =====
-- The errors of poll.c: of the tests of its arguments, and behind a call that failed.
use matlab_zmq.Prelude.{
  ℕ, List, String, length, get_elem?, some, ◌<◌, ◌≢◌, ◌≡◌, ◌⊎◌, Bool, not, ◌||◌, true, false,
  Bool-cases, inl, inr, arith,
}
use matlab_zmq.Prelude.{eq_ℤ_iff, ℤ, String, ◌≡◌, ◌≢◌, refl, eq_ℤ}
use matlab_zmq.Core.Poll.{poll_failed}
use matlab_zmq.Mex.Memory.{State}
use matlab_zmq.Mex.Host.{Host}
use matlab_zmq.Mex.Exec.Ends.{Ends, returns, throws}
use matlab_zmq.Core.Context.Laws.{differ}
use matlab_zmq.Mex.Exec.Ends

-- Which identifier reports which `errno`.
pub data PollError (H : Host) (errno : ℤ) (i : String) : Type 0 where
  terminated :
      errno ≡ H.constants.errnos.eterm → i ≡ "zmq:core:poll:contextTerminated" → PollError H errno i
  bad_items :
      errno ≡ H.constants.errnos.efault → i ≡ "zmq:core:poll:invalidItems" → PollError H errno i
  interrupted :
      errno ≡ H.constants.errnos.eintr → i ≡ "zmq:core:poll:interrupted" → PollError H errno i
  other :
      errno ≢ H.constants.errnos.eterm
      → errno ≢ H.constants.errnos.efault
      → errno ≢ H.constants.errnos.eintr
      → i ≡ "zmq:core:poll:unknown"
      → PollError H errno i

module _ (H : Host) where
  -- `poll_failed` always throws, by the error number.
  pub poll_failed-Ends :
      (errno : ℤ) (s : State H)
      → Ends (λ o t. ⊥) (λ e t. (t ≡ s) × PollError H errno e.id) (poll_failed H errno s)
  poll_failed-Ends errno s =
      let k = H.constants.errnos in
      Ends.either (eq_ℤ errno k.eterm) _ _ s
        (λ e. throws (refl, terminated ((eq_ℤ_iff _ _).0 e) refl))
        λ a.
          Ends.either (eq_ℤ errno k.efault) _ _ s
            (λ e. throws (refl, bad_items ((eq_ℤ_iff _ _).0 e) refl))
            λ b.
              Ends.either (eq_ℤ errno k.eintr) _ _ s
                (λ e. throws (refl, interrupted ((eq_ℤ_iff _ _).0 e) refl))
                λ c. throws (refl, other (differ _ _ a) (differ _ _ b) (differ _ _ c) refl)

-- The arguments fail exactly the test whose error is thrown.
pub data ArgumentError (H : Host) (nlhs : ℕ) (prhs : List H.Array) (i : String) : Type 0 where
  miscounted : length prhs ≢ 2 → i ≡ "zmq:core:poll:invalidArgs" → ArgumentError H nlhs prhs i
  too_many_outputs : 2 < nlhs → i ≡ "zmq:core:poll:invalidOutputs" → ArgumentError H nlhs prhs i
  no_structure :
      (a : H.Array)
      → get_elem? prhs 0 ≡ some a
      → H.is_struct a ≡ false
      → i ≡ "zmq:core:poll:invalidItems"
      → ArgumentError H nlhs prhs i
  no_timeout :
      (b : H.Array)
      → get_elem? prhs 1 ≡ some b
      → (H.is_scalar b ≡ false) ⊎ (H.is_numeric b ≡ false)
      → i ≡ "zmq:core:poll:invalidTimeout"
      → ArgumentError H nlhs prhs i

pub either_false : (x y : Bool) → (not x || not y) ≡ true → (x ≡ false) ⊎ (y ≡ false)
either_false x y e = elim (Bool-cases x) [ inl a ↦ inr (ground arith) | inr a ↦ inl a ]
