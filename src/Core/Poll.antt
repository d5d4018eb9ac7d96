-- ===== src/Core/Poll.antt =====
-- src/core/poll.c: the events of several sockets.
pub mod Items
pub mod Errors
pub mod Laws
pub mod Outputs
use matlab_zmq.Prelude.Words.{size_values, wrap, int_values, of_bytes, signed}
use matlab_zmq.Mex.Memory.{cast, calloc, free, Call, argument, perform, read, Block, Mex}
use matlab_zmq.Prelude.{
  ◌%◌, ◌==◌, Bytes, length, ltb, ◌||◌, eq_ℤ, if◌then◌else◌, not, ◌+◌, Option, List, ℕ, ℤ, [], ◌∷◌,
  none, some, pos, negsuc, zero, suc,
}
use matlab_zmq.Mex.Exec.{number, throw, gets, reject_if, undefined_behaviour, ◌>>=◌, ◌>>◌, pure}
use matlab_zmq.Util.Conversions.ToM.{pointer_array, Out}
use matlab_zmq.Mex.Host.{Host, PollItem}

-- A row of the structure array that is returned: the socket, and the double of the events.
pub record PollResult : Type 0 where
  pub socket : Out
  pub revents : ℤ

-- What is returned: the structure array, and the double of the count if there is a second output.
pub record PollOutput : Type 0 where
  pub results : List PollResult
  pub count : Option ℤ

-- The rounds of `for (int i = 0; i < n; i++)`
abbrev pub rounds : ℤ → ℕ
rounds (pos n) = n
rounds (negsuc n) = 0

module _ (H : Host) where
  unfoldable pub validate_input : ℕ → List H.Array → Mex H (Unit {0})
  validate_input nlhs prhs = do
    reject_if (not (length prhs == 2)) "zmq:core:poll:invalidArgs"
        "Two inputs required: poll_items structure array and timeout"
    reject_if (ltb 2 nlhs) "zmq:core:poll:invalidOutputs" "Maximum of two outputs supported"
    items ← argument H prhs 0
    reject_if (not (H.is_struct items)) "zmq:core:poll:invalidItems"
        "First argument must be a structure array"
    timeout ← argument H prhs 1
    reject_if (not (H.is_scalar timeout) || not (H.is_numeric timeout))
        "zmq:core:poll:invalidTimeout" "Timeout must be a numeric scalar"

  -- One item, of which both fields must be there. `fd` is 0.
  abbrev pub poll_item : ℕ → Option H.Array → Option H.Array → Mex H PollItem
  poll_item i (some socket_field) (some events_field) = do
    socket ← read H H.pointer_size (H.get_data socket_field)
    events ← cast H (H.casts_to_short events_field) (H.double_to_short (H.get_scalar events_field))
    pure (record { socket = of_bytes socket; fd = pos 0; events = events; revents = pos 0 })
  poll_item i (some socket_field) none =
      throw "zmq:core:poll:invalidField" "Invalid field in poll item %d" (number (pos (i + 1)) ∷ [])
  poll_item i none events_field =
      throw "zmq:core:poll:invalidField" "Invalid field in poll item %d" (number (pos (i + 1)) ∷ [])

  -- The rounds that are left of the loop in `parse_poll_items`, with the numbers of the two fields.
  unfoldable pub parse_rounds : H.Array → ℤ → ℤ → ℕ → ℕ → Mex H (List PollItem)
  parse_rounds items socket_num events_num zero i = pure []
  parse_rounds items socket_num events_num (suc left) i = do
    item ←
        poll_item i (H.get_field_by_number items i socket_num)
          (H.get_field_by_number items i events_num)
    rest ← parse_rounds items socket_num events_num left (i + 1)
    pure (item ∷ rest)

  unfoldable pub parse_poll_items : H.Array → ℤ → Mex H (List PollItem)
  parse_poll_items items nitems = do
    let socket_num = H.get_field_number items "socket"
    let events_num = H.get_field_number items "events"
    reject_if (eq_ℤ socket_num (negsuc 0) || eq_ℤ events_num (negsuc 0))
        "zmq:core:poll:missingFields" "Poll items must have 'socket' and 'events' fields"
    parse_rounds items socket_num events_num (rounds nitems) 0

  -- `switch (errno)`
  abbrev pub poll_failed : ℤ → Mex H PollOutput
  poll_failed errno =
      if eq_ℤ errno H.constants.errnos.eterm
      then throw "zmq:core:poll:contextTerminated"
          "Error: At least one socket's context was terminated" []
      else if eq_ℤ errno H.constants.errnos.efault
      then throw "zmq:core:poll:invalidItems" "Error: Poll items array is not valid" []
      else if eq_ℤ errno H.constants.errnos.eintr
      then throw "zmq:core:poll:interrupted" "Error: Poll operation was interrupted" []
      else throw "zmq:core:poll:unknown" "Error: Unknown polling error occurred" []

  -- The rows of the structure array, from the items with the `revents` that libzmq wrote to them.
  abbrev pub result_rows : List PollItem → List ℤ → List PollResult
  result_rows [] events = []
  result_rows (item ∷ items) [] =
      record { socket = pointer_array H item.socket; revents = item.revents } ∷ result_rows items []
  result_rows (item ∷ items) (e ∷ events) =
      record { socket = pointer_array H item.socket; revents = e } ∷ result_rows items events

  -- `create_output`. `plhs[1]` lies past the outputs where fewer than two are asked for; otherwise
  -- it is what it was before the function ran.
  unfoldable pub create_output : ℕ → List PollItem → List ℤ → ℤ → Mex H PollOutput
  create_output nlhs items events result =
      if ltb nlhs 2
      then undefined_behaviour
      else pure (record {
        results = result_rows items events;
        count = if H.output_set 1 then some result else none;
      })

  -- The return code and the events.
  abbrev pub zmq_polled : List PollItem → ℤ → ℤ → H.World → (ℤ × List ℤ) × H.World
  zmq_polled items nitems timeout w =
      let (rc, events, after) = H.zmq_poll items nitems timeout w in ((rc, events), after)

  -- `mexFunction` behind the allocation of the items.
  unfoldable pub poll_items : ℕ → H.Array → H.Array → ℤ → Block → Mex H PollOutput
  poll_items nlhs items_array timeout_array nitems block = do
    items ← parse_poll_items items_array nitems
    timeout ← cast H (H.casts_to_int timeout_array) (H.double_to_int (H.get_scalar timeout_array))
    (result, events) ← perform H (Call.poll items nitems timeout) (zmq_polled items nitems timeout)
    if eq_ℤ result (negsuc 0)
        then (do free H block; errno ← gets (λ s. H.errno s.world); poll_failed errno)
        else (do output ← create_output nlhs items events result; free H block; pure output)

  -- The array of items is not compared with NULL.
  abbrev pub allocated_items : ℕ → H.Array → H.Array → ℤ → Option Block → Mex H PollOutput
  allocated_items nlhs items_array timeout_array nitems none = undefined_behaviour
  allocated_items nlhs items_array timeout_array nitems (some block) =
      poll_items nlhs items_array timeout_array nitems block

  -- `mexFunction`: the rows of the structure array are the items.
  unfoldable pub poll_mex : ℕ → List H.Array → Mex H PollOutput
  poll_mex nlhs prhs = do
    validate_input nlhs prhs
    items_array ← argument H prhs 0
    timeout_array ← argument H prhs 1
    let nitems = signed int_values (H.get_m items_array % int_values)
    block ← calloc H (wrap size_values nitems) H.poll_item_size
    allocated_items nlhs items_array timeout_array nitems block
