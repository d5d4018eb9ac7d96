-- ===== src/Mex/Memory.antt =====
-- The state of a MEX call: the world, the blocks that are allocated, the calls of libzmq that were
-- made, the warnings, and the allocation and release of blocks.
pub mod Laws
use matlab_zmq.Prelude.{
  ℕ, ℤ, ◌+◌, ◌*◌, String, Bool, false, ◌||◌, Option, none, some, List, [], ◌∷◌, Bytes, replicate,
  length, take, get_elem?, leb, ◌==◌, if◌then◌else◌, c_str,
}
use matlab_zmq.Mex.Exec.{MexError, Outcome, returned, undefined, Exec, pure, undefined_behaviour}
use matlab_zmq.Mex.Host.{Host, EndpointOp, PollItem}

-- One call of libzmq with its arguments.
pub data Call : Type 0 where
  ctx_new : Call
  ctx_set : ℕ → ℤ → ℤ → Call
  ctx_get : ℕ → ℤ → Call
  ctx_shutdown : ℕ → Call
  ctx_term : ℕ → Call
  socket : ℕ → ℤ → Call
  close : ℕ → Call
  endpoint : EndpointOp → ℕ → Bytes → Call
  send : ℕ → Bytes → ℕ → Call
  recv : ℕ → ℕ → ℕ → Call
  getsockopt : ℕ → ℤ → ℕ → Call
  setsockopt : ℕ → ℤ → Bytes → Call
  poll : List PollItem → ℤ → ℤ → Call

-- A block of the MATLAB memory manager: its serial number and its bytes.
pub record Block : Type 0 where
  pub serial : ℕ
  pub bytes : Bytes

abbrev pub is_live : List ℕ → ℕ → Bool
is_live [] n = false
is_live (m ∷ ms) n = (m == n) || is_live ms n

abbrev pub release : List ℕ → ℕ → List ℕ
release [] n = []
release (m ∷ ms) n = if m == n then ms else m ∷ release ms n

pub record State (H : Host) : Type 0 where
  pub world : H.World
  -- serial numbers of the allocated blocks, newest first
  pub live : List ℕ
  pub fresh : ℕ
  -- newest first
  pub calls : List Call
  -- what was given to `mexWarnMsgIdAndTxt`, newest first
  pub warnings : List MexError

module _ (H : Host) where
  abbrev pub Mex : Type 0 → Type 0
  Mex A = Exec (State H) A

  -- A new block with these bytes, or NULL.
  abbrev pub placed : Option Bytes → H.World → State H → Outcome (Option Block) × State H
  placed none w s = (returned none, record s { world = w })
  placed (some bytes) w s = (
    returned (some (record { serial = s.fresh; bytes = bytes })),
    record s { world = w; live = s.fresh ∷ s.live; fresh = s.fresh + 1 },
  )

  -- `mxCalloc(count, size)`
  unfoldable pub calloc : ℕ → ℕ → Mex (Option Block)
  calloc count size s =
      let (done, w) = H.calloc count size s.world in
      placed (if done then some (replicate (count * size) 0) else none) w s

  -- `mxMalloc(size)`
  unfoldable pub malloc : ℕ → Mex (Option Block)
  malloc size s = let (got, w) = H.malloc size s.world in placed got w s

  -- `mxFree`: of a block that is not allocated, undefined
  unfoldable pub free : Block → Mex (Unit {0})
  free b s =
      if is_live s.live b.serial
      then (
        returned tt,
        record s { world = H.free b.serial s.world; live = release s.live b.serial },
      )
      else (undefined, s)

  -- The first `n` bytes of a buffer; past its end, undefined.
  unfoldable pub read : ℕ → Bytes → Mex Bytes
  read n bytes = if leb n (length bytes) then pure (take n bytes) else undefined_behaviour

  -- The C string at the start of a buffer; with no terminator, undefined.
  unfoldable pub read_string : Bytes → Mex Bytes
  read_string bytes = elim (c_str bytes) [ none ↦ undefined_behaviour | some t ↦ pure t ]

  unfoldable pub warn : MexError → Mex (Unit {0})
  warn w s = (returned tt, record s { warnings = w ∷ s.warnings })

  -- A cast of an array's number to an integer type.
  abbrev pub cast : {A : Type 0} → Bool → A → Mex A
  cast is_defined value = if is_defined then pure value else undefined_behaviour

  -- A call of libzmq: it is noted, and the world goes on.
  unfoldable pub perform : {A : Type 0} → Call → (H.World → A × H.World) → Mex A
  perform c f s =
      let (a, w) = f s.world in (returned a, record s { world = w; calls = c ∷ s.calls })

  -- `prhs[i]`; past the end, undefined
  unfoldable pub argument : List H.Array → ℕ → Mex H.Array
  argument xs i = elim (get_elem? xs i) [ none ↦ undefined_behaviour | some a ↦ pure a ]
