-- ===== src/Core/Poll/Outputs.antt =====
-- `zmq.core.poll` with fewer than two outputs, for which `create_output` of poll.c reads `plhs[1]`.
use matlab_zmq.Prelude.{
  Bool, true, false, ltb, eq_ℤ, ℕ, ℤ, List, Option, none, some, ◌≡◌, if◌then◌else◌, negsuc,
}
use matlab_zmq.Core.Poll.{
  validate_input, parse_poll_items, zmq_polled, poll_mex, poll_items, poll_failed, allocated_items,
  create_output,
}
use matlab_zmq.Mex.Host.{Host}
use matlab_zmq.Mex.Memory.{cast, Call, perform, free, calloc, argument, State, Block}
use matlab_zmq.Mex.Exec.{MexError, Outcome, returned, thrown, undefined, Exec, and_then}

-- An exception, or undefined behaviour.
pub data NoReturn {S A : Type 0} : Outcome A × S → Type 0 where
  throws : {e : MexError} {s : S} → NoReturn (thrown e, s)
  breaks : {s : S} → NoReturn (undefined, s)

module _ {S A : Type 0} where
  and_then-NoReturn :
      {B : Type 0} (r : Outcome B × S) (f : B → Exec S A)
      → ((b : B) (t : S) → NoReturn (f b t))
      → NoReturn (and_then r f)
  and_then-NoReturn (returned b, t) f h = h b t
  and_then-NoReturn (thrown e, t) f h = throws
  and_then-NoReturn (undefined, t) f h = breaks

  either-NoReturn :
      (b : Bool) (m n : Exec S A) (s : S)
      → NoReturn (m s)
      → NoReturn (n s)
      → NoReturn ((if b then m else n) s)
  either-NoReturn true m n s p q = p
  either-NoReturn false m n s p q = q

module _ (H : Host) (nlhs : ℕ) (few : ltb nlhs 2 ≡ true) where
  poll_failed-NoReturn : (errno : ℤ) (s : State H) → NoReturn (poll_failed H errno s)
  poll_failed-NoReturn errno s =
      let k = H.constants.errnos in
      either-NoReturn (eq_ℤ errno k.eterm) _ _ s throws (
        either-NoReturn (eq_ℤ errno k.efault) _ _ s throws
          (either-NoReturn (eq_ℤ errno k.eintr) _ _ s throws throws))

  poll_items-NoReturn :
      (a b : H.Array) (n : ℤ) (block : Block) (s : State H)
      → NoReturn (poll_items H nlhs a b n block s)
  unfolding poll_items create_output
  poll_items-NoReturn a b n block s =
      let number = H.double_to_int (H.get_scalar b) in
      and_then-NoReturn (parse_poll_items H a n s) _ λ items t.
        and_then-NoReturn (cast H (H.casts_to_int b) number t) _ λ timeout v.
          and_then-NoReturn (perform H (Call.poll items n timeout) (zmq_polled H items n timeout) v)
            _
            λ r u.
              either-NoReturn (eq_ℤ r.0 (negsuc 0)) _ _ u
                (and_then-NoReturn (free H block u) _
                  λ _ w. poll_failed-NoReturn (H.errno w.world) w)
                (rw few breaks)

  allocated_items-NoReturn :
      (a b : H.Array) (n : ℤ) (o : Option Block) (s : State H)
      → NoReturn (allocated_items H nlhs a b n o s)
  allocated_items-NoReturn a b n none s = breaks
  allocated_items-NoReturn a b n (some block) s = poll_items-NoReturn a b n block s

  -- Where fewer than two outputs are asked for, the function never returns a value, whatever the
  -- arguments are and whatever libzmq answers: it throws, or its behaviour is undefined.
  pub poll_mex-NoReturn : (prhs : List H.Array) (s : State H) → NoReturn (poll_mex H nlhs prhs s)
  unfolding poll_mex
  poll_mex-NoReturn prhs s = and_then-NoReturn (validate_input H nlhs prhs s) _ λ _ t.
      and_then-NoReturn (argument H prhs 0 t) _ λ a u.
        and_then-NoReturn (argument H prhs 1 u) _ λ b v.
          and_then-NoReturn (calloc H _ H.poll_item_size v) _
            λ o w. allocated_items-NoReturn a b _ o w
