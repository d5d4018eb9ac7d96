-- ===== src/Core/Poll/Laws.antt =====
-- `zmq.core.poll` on every input.
use matlab_zmq.Core.Poll.Errors.{
  ArgumentError, miscounted, too_many_outputs, no_structure, no_timeout, either_false,
}
use matlab_zmq.Core.Poll.{
  pointer_array, zmq_polled, size_values, length, wrap, not, Block, ltb, ℕ, argument, create_output,
  [], poll_items, poll_mex, validate_input, PollOutput, rounds,
}
use matlab_zmq.Util.Conversions.ToM.{pointer_array}
use matlab_zmq.Mex.Memory.Laws.{
  cast-Ends, free-Ends, perform-Ends, Holds-Quiet, calloc-Cleared, Holds, argument-Ends,
}
use matlab_zmq.Prelude.{
  ◌∙◌, ap, ◌==◌, length, arith, ◌||◌, get_elem?, not, false, ltb, ℕ, [], eq_ℤ_iff, ℤ, List, some,
  ◌∷◌, ◌≡◌, ◌≢◌, refl, true, eq_ℤ, negsuc, ◌%◌,
}
use matlab_zmq.Core.Poll.Errors.{PollError, poll_failed-Ends}
use matlab_zmq.Prelude.Words.{size_values, wrap, int_values, signed}
use matlab_zmq.Core.Poll.Items.{
  length-result_rows, get_elem?-result_rows, parse_poll_items-Ends, FieldsHold, AreItems,
  ParseErrors,
}
use matlab_zmq.Mex.Memory.{Block, argument, State, Call}
use matlab_zmq.Mex.Host.{Allocates, Host, PollItem}
use matlab_zmq.Mex.Exec.{MexError}
use matlab_zmq.Mex.Exec.Ends.{Ends, returns, throws}
use matlab_zmq.Util.Conversions.FromM.Laws.{Fails}
use matlab_zmq.Core.Context.Laws.{differ}
use matlab_zmq.Mex.Exec.Ends

-- The number of rows that an `int` holds.
abbrev pub row_count : (H : Host) → H.Array → ℤ
row_count H items = signed int_values (H.get_m items % int_values)

module _ (H : Host) (items_array timeout_array : H.Array) (s : State H) where
  -- Every row was read, and libzmq was called once with the items in order.
  pub record Polled (t : State H) : Type 0 where
    pub items : List PollItem
    pub items_read :
        AreItems H items_array
          (H.get_field_number items_array "socket")
          (H.get_field_number items_array "events")
          0
          (rounds (row_count H items_array))
          items
    pub timeout : ℤ
    pub timeout_read : timeout ≡ H.double_to_int (H.get_scalar timeout_array)
    pub before : H.World
    pub result : ℤ
    pub answered : result ≡ (H.zmq_poll items (row_count H items_array) timeout before).0
    pub events : List ℤ
    pub seen : events ≡ (H.zmq_poll items (row_count H items_array) timeout before).1
    pub left : t.world ≡ (H.zmq_poll items (row_count H items_array) timeout before).2
    pub calls : t.calls ≡ Call.poll items (row_count H items_array) timeout ∷ s.calls
    pub warnings : t.warnings ≡ s.warnings

  -- The rows and the count are returned, and the items are given back.
  pub record Returned (output : PollOutput) (t : State H) : Type 0 where
    pub called : State H
    pub polled : Polled called
    pub answer : polled.result ≢ negsuc 0
    -- one row for each item, with the socket of the item and the events that libzmq saw on it
    pub row_count_kept : length output.results ≡ length polled.items
    pub rows :
        (k : ℕ) (x : PollItem) (e : ℤ)
        → get_elem? polled.items k ≡ some x
        → get_elem? polled.events k ≡ some e
        → get_elem? output.results k
          ≡ some (record { socket = pointer_array H x.socket; revents = e })
    pub count : (H.output_set 1 ≡ true → output.count ≡ some polled.result)
    pub live : t.live ≡ s.live
    pub calls : t.calls ≡ called.calls
    pub warnings : t.warnings ≡ called.warnings

  pub data Failed (e : MexError) (t : State H) : Type 0 where
    not_parsed : Fails (ParseErrors H) s e t → Failed e t
    reported :
        (called : State H) (polled : Polled called)
        → polled.result ≡ negsuc 0
        → PollError H (H.errno t.world) e.id
        → t.live ≡ s.live
        → t.calls ≡ called.calls
        → Failed e t

module _ (H : Host) where
  poll_items-Ends :
      (nlhs : ℕ) (a b : H.Array) (block : Block) (s t : State H)
      → ltb nlhs 2 ≡ false
      → FieldsHold H a (H.get_field_number a "socket") (H.get_field_number a "events")
      → H.casts_to_int b ≡ true
      → Holds block s t
      → Ends (Returned H a b s) (Failed H a b s) (poll_items H nlhs a b (row_count H a) block t)
  unfolding poll_items create_output
  poll_items-Ends nlhs a b block s t two holds casts held =
      let n = row_count H a in
      let timeout = H.double_to_int (H.get_scalar b) in
      Ends.bind_same _ t
        (Ends.mono (parse_poll_items-Ends H a n t holds) (λ xs u q. q)
          (λ e u (now, known).
            not_parsed (record { id_known = known; quiet = rw now (Holds-Quiet held) })))
        λ items read. Ends.bind_value _ timeout t (cast-Ends H (H.casts_to_int b) timeout t casts) (
          Ends.bind (perform-Ends H (Call.poll items n timeout) (zmq_polled H items n timeout) t)
            λ r u (called, answer, world).
              let polled : Polled H a b s u = record {
                items = items;
                items_read = read;
                timeout = timeout;
                timeout_read = refl;
                before = t.world;
                result = r.0;
                answered = ap (λ (z : ℤ × List ℤ). z.0) answer;
                events = r.1;
                seen = ap (λ (z : ℤ × List ℤ). z.1) answer;
                left = world;
                calls = called.calls ∙ ap (λ l. Call.poll items n timeout ∷ l) held.calls;
                warnings = called.warnings ∙ held.warnings;
              } in
              Ends.either (eq_ℤ r.0 (negsuc 0)) _ _ u
                (λ failed.
                  Ends.bind (free-Ends H block s.live u (called.live ∙ held.live)) λ _ v freed.
                    Ends.mono (poll_failed-Ends H (H.errno v.world) v) (λ o w no. absurd no)
                      λ e w (now, which).
                        rw now (
                          reported u polled ((eq_ℤ_iff _ _).0 failed) which freed.live freed.calls))
                (λ answered. rw two (
                  Ends.bind (free-Ends H block s.live u (called.live ∙ held.live)) λ _ v freed.
                    returns (record {
                      called = u;
                      polled = polled;
                      answer = differ _ _ answered;
                      row_count_kept = length-result_rows H items r.1;
                      rows = λ k x e at seen. get_elem?-result_rows H items r.1 k at seen;
                      count = λ asked. rw asked refl;
                      live = freed.live;
                      calls = freed.calls;
                      warnings = freed.warnings;
                    }))))

module _ (H : Host) (prhs : List H.Array) (s : State H) where
  -- The two arguments: a structure array and a number.
  pub record Arguments : Type 0 where
    pub items_array : H.Array
    pub timeout_array : H.Array
    pub two_arguments : prhs ≡ items_array ∷ timeout_array ∷ []
    pub is_struct : H.is_struct items_array ≡ true
    pub is_scalar : H.is_scalar timeout_array ≡ true
    pub is_numeric : H.is_numeric timeout_array ≡ true

  pub data Answered (output : PollOutput) (t : State H) : Type 0 where
    answered :
        (xs : Arguments) → Returned H xs.items_array xs.timeout_array s output t → Answered output t

  pub data Unanswered (nlhs : ℕ) (e : MexError) (t : State H) : Type 0 where
    refused : ArgumentError H nlhs prhs e.id → t ≡ s → Unanswered nlhs e t
    failed : (xs : Arguments) → Failed H xs.items_array xs.timeout_array s e t → Unanswered nlhs e t

module _ (H : Host) where
  validate_input-Ends :
      (nlhs : ℕ) (prhs : List H.Array) (s : State H)
      → Ends
          (λ _ t. (t ≡ s) × Arguments H prhs s)
          (Unanswered H prhs s nlhs)
          (validate_input H nlhs prhs s)
  unfolding validate_input argument
  validate_input-Ends nlhs [] s = throws (refused (miscounted (λ z. omega (arith, z)) refl) refl)
  validate_input-Ends nlhs (a ∷ []) s =
      throws (refused (miscounted (λ z. omega (arith, z)) refl) refl)
  validate_input-Ends nlhs (a ∷ b ∷ []) s =
      Ends.reject (ltb 2 nlhs) _ _ _ s (λ e. refused (too_many_outputs (ground arith) refl) refl)
        λ outputs.
          Ends.reject (not (H.is_struct a)) _ _ _ s
            (λ e. refused (no_structure a refl (ground arith) refl) refl)
            λ struct.
              Ends.reject_last (not (H.is_scalar b) || not (H.is_numeric b)) _ _ s
                (λ e. refused (no_timeout b refl (either_false _ _ e) refl) refl)
                λ numeric. (
                  refl,
                  record {
                    items_array = a;
                    timeout_array = b;
                    two_arguments = refl;
                    is_struct = ground arith;
                    is_scalar = ground arith;
                    is_numeric = ground arith;
                  },
                )
  validate_input-Ends nlhs (a ∷ b ∷ c ∷ rest) s =
      let more : (length (a ∷ b ∷ c ∷ rest) == 2) ≡ false = ground arith in
      rw more (throws (refused (miscounted (λ z. omega (arith, z)) refl) refl))

  pub poll_mex-Ends :
      Allocates H
      → (nlhs : ℕ) (prhs : List H.Array) (s : State H) → ltb nlhs 2 ≡ false
      → ((a : H.Array)
          → get_elem? prhs 0 ≡ some a
          → FieldsHold H a (H.get_field_number a "socket") (H.get_field_number a "events"))
      → ((b : H.Array) → get_elem? prhs 1 ≡ some b → H.casts_to_int b ≡ true)
      → Ends (Answered H prhs s) (Unanswered H prhs s nlhs) (poll_mex H nlhs prhs s)
  unfolding poll_mex
  poll_mex-Ends allocates nlhs prhs s two holds casts =
      Ends.bind_same _ s (validate_input-Ends nlhs prhs s) λ _ xs.
        let a = xs.items_array in
        let b = xs.timeout_array in
        Ends.bind_value _ a s (argument-Ends H prhs 0 s (rw (xs.two_arguments) refl)) (
          Ends.bind_value _ b s (argument-Ends H prhs 1 s (rw (xs.two_arguments) refl)) (
            Ends.bind
              (calloc-Cleared H allocates (wrap size_values (row_count H a)) H.poll_item_size s)
              λ o t cleared. rw cleared.is (
                Ends.mono
                  (poll_items-Ends H nlhs a b cleared.block s t two
                    (holds a (rw (xs.two_arguments) refl)) (casts b (rw (xs.two_arguments) refl))
                    cleared.held)
                  (λ out u q. answered xs q) (λ e u f. failed xs f))))
