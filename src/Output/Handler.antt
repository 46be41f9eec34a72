-- ===== src/Output/Handler.antt =====
-- One `output_handler_t` and what output.c does with it.
use Prim.Native.Nat.{min}
use rdma_paxos.Prelude.{
  ℕ, zero, suc, ◌+◌, ◌-◌, ◌%◌, ◌^◌, List, [], ◌∷◌, ◌++◌, Option, none, some, length, take, drop,
  ltb, leb, ◌==◌, if◌then◌else◌, ℤ, pos, negsuc, minus_one, Bool, true, false,
}
use rdma_paxos.Output.Library.{OutputLib}

abbrev pub check_period : ℕ
check_period = 10

abbrev pub check_goback : ℕ
check_goback = 5

abbrev pub hash_buffer_size : ℕ
hash_buffer_size = 1024

-- `int wait_size`, as 32 bits; it is negative from 2 ^ 31 on.
abbrev pub wait_bits : List ℕ → ℕ → ℕ
wait_bits buff push_size = (length buff - push_size) % 2 ^ 32

-- `memset(buffer, 0, n)`
abbrev pub zeros : ℕ → List ℕ
zeros zero = []
zeros (suc n) = 0 ∷ zeros n

-- `memcpy(buf + at, src, length src)`
abbrev pub memcpy : List ℕ → ℕ → List ℕ → List ℕ
memcpy buf at src = take at buf ++ (src ++ drop (at + length src) buf)

-- `index == cnt`, for a `long` and a count
abbrev pub is_index : ℤ → ℕ → Bool
is_index (pos i) n = i == n
is_index (negsuc i) n = false

module _ (lib : OutputLib) where
  open lib use {crc64, AdList, Iter, list_create, list_add_node_tail, list_rewind, list_next}

  pub record OutputHandler : Type 0 where
    pub fd : ℕ
    pub count : ℕ
    pub output_list : Option AdList
    pub hash : ℕ
    pub hash_buffer : List ℕ
    pub hash_buffer_curr : ℕ
    pub called_cnt : ℕ

  unfoldable pub new_output_handler : ℕ → OutputHandler
  new_output_handler fd = record {
    fd = fd;
    count = 0;
    output_list = some list_create;
    hash = 0;
    hash_buffer = zeros hash_buffer_size;
    hash_buffer_curr = 0;
    called_cnt = 0;
  }

  -- The hash goes to the list, if there is one; the second part is what `retval` grows by.
  unfoldable pub push_hash : OutputHandler → Option AdList → OutputHandler × ℕ
  push_hash h none = (h, 0)
  push_hash h (some l) =
      (record h { output_list = some (list_add_node_tail l h.hash); count = h.count + 1 }, 1)

  -- The branch for a full buffer.
  unfoldable pub full_buffer : OutputHandler → OutputHandler × ℕ
  full_buffer h =
      push_hash (record h { hash = crc64 h.hash h.hash_buffer; hash_buffer_curr = 0 }) h.output_list

  -- The body of the loop of `store_output` while `wait_size` is not negative, with the growth of `push_size` and of `retval`.
  unfoldable pub store_step : OutputHandler → List ℕ → ℕ → OutputHandler × ℕ × ℕ
  store_step h buff push_size =
      let left_space = hash_buffer_size - h.hash_buffer_curr in
      let wait_size = wait_bits buff push_size in
      let actual_size = min left_space wait_size in
      let h1 : OutputHandler = record h {
        hash_buffer =
            memcpy h.hash_buffer h.hash_buffer_curr (take actual_size (drop push_size buff));
        hash_buffer_curr = h.hash_buffer_curr + actual_size;
      } in
      if 0 == hash_buffer_size - h1.hash_buffer_curr
      then ((full_buffer h1).0, actual_size, (full_buffer h1).1)
      else (h1, actual_size, 0)

  -- `while (push_size < buff_size)`; `none` when the fuel runs out, or when the size for `memcpy` is
  -- negative.
  unfoldable pub store_loop : ℕ → OutputHandler → List ℕ → ℕ → ℕ → Option (OutputHandler × ℕ)
  store_loop zero h buff push_size retval = none
  store_loop (suc fuel) h buff push_size retval =
      let (h1, actual_size, grown) = store_step h buff push_size in
      let rest = store_loop fuel h1 buff (push_size + actual_size) (retval + grown) in
      if ltb push_size (length buff)
      then if leb (2 ^ 31) (wait_bits buff push_size) then none else rest
      else some (h, retval)

  -- `count - CHECK_GOBACK`, or -1 if that is negative or the call is no tenth one.
  unfoldable pub determine : OutputHandler → ℤ × OutputHandler
  determine h =
      let h1 : OutputHandler = record h { called_cnt = h.called_cnt + 1 } in
      if h1.called_cnt % check_period == 0
      then if leb check_goback h1.count
        then (pos (h1.count - check_goback), h1)
        else (minus_one, h1)
      else (minus_one, h1)

  -- The loop of `get_val_by_index`, at `cnt`; `none` when the fuel runs out.
  unfoldable pub index_loop : ℕ → Iter → ℤ → ℕ → Option ℕ
  index_loop zero it index cnt = none
  index_loop (suc fuel) it index cnt = elim (list_next it) [
    | none ↦ some 0
    | some r ↦ elim (is_index index cnt) [
      | true ↦ some r.0
      | false ↦ index_loop fuel r.1 index (cnt + 1)
    ]
  ]

  unfoldable pub get_val_by_index : ℕ → AdList → ℤ → Option ℕ
  get_val_by_index fuel list_head index = index_loop fuel (list_rewind list_head) index 0
