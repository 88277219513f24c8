-- ===== src/Buffer.antt =====
-- libCSP/trunk/src/csp_buffer.c: the pool of packet buffers, with CSP_BUFFER_STATIC and
-- CSP_BUFFER_CALLOC at 0. A pointer into the pool is its distance in bytes from `csp_buffer_p`.
-- The critical section makes `csp_buffer_get` one step; the contents of the elements are generic.
pub mod Search
pub mod Get
pub mod Free
mod Tests
use cubesat_space_protocol.Base.{
  ℕ, zero, suc, ◌+◌, ◌-◌, ◌*◌, ◌/◌, ◌%◌, ◌^◌, ◌≤◌, ◌<◌, ◌≡◌, Bool, true, false, not, ◌||◌, ◌&&◌,
  List, [], ◌∷◌, Option, none, some, length, get_or, set, replicate, ltb, ◌==◌, if◌then◌else◌,
}
use cubesat_space_protocol.Base.Cycle.{next}

-- `csp_buffer_state_t`
pub data State : Type 0 where
  free used : State

-- The static variables of the file, with that of `csp_buffer_get_isr`. `list` has `count` entries.
pub record Pool : Type 0 where
  pub count : ℕ
  pub size : ℕ
  pub list : List State
  pub last_given : ℕ

abbrev pub is_free : State → Bool
is_free free = true
is_free used = false

-- CSP_BUFFER_PACKET_OVERHEAD: padding, length and identifier.
abbrev pub packet_overhead : ℕ
packet_overhead = 14

-- `size_t` addition
abbrev pub add_size : ℕ → ℕ → ℕ
add_size a b = (a + b) % 2 ^ 64

-- `csp_buffer_init` on the outcomes of the two `csp_malloc` calls and of `csp_bin_sem_create`;
-- `none` is CSP_ERR_NOMEM. `last_given` is 0 from the start of the program.
pub init : Bool → Bool → Bool → ℕ → ℕ → Option Pool
init memory housekeeping lock buf_count buf_size =
    if not memory
    then none
    else if not housekeeping
    then none
    else if not lock
    then none
    else some (record {
      count = buf_count;
      size = buf_size;
      list = replicate buf_count free;
      last_given = 0;
    })

-- What the `while` loop of `csp_buffer_get_isr` comes to: `spent` is that the fuel ran out.
pub data Found : Type 0 where
  at : ℕ → Found
  nowhere spent : Found

pub search : ℕ → Pool → ℕ → Found
search zero p i = spent
search (suc fuel) p i =
    let rest = search fuel p (next p.count i) in
    if i == p.last_given then nowhere else if is_free (get_or p.list i used) then at i else rest

-- The element is marked; `csp_buffer_last_given` is a `uint8_t`.
pub take_element : Pool → Found → Option ℕ × Pool
take_element p (at i) =
    (some (i * p.size), record p { list = set p.list i used; last_given = i % 256 })
take_element p nowhere = (none, p)
take_element p spent = (none, p)

-- `csp_buffer_get` and `csp_buffer_get_isr`: NULL is `none`.
pub get : Pool → ℕ → Option ℕ × Pool
unfolding search take_element
get p buf_size =
    if ltb p.size (add_size buf_size packet_overhead)
    then (none, p)
    else take_element p (search p.count p (next p.count p.last_given))

-- `csp_buffer_free`, for a pointer that is not below the pool: the index that it writes, if its
-- guard `i > count` lets it.
pub freed_index : Pool → ℕ → Option ℕ
freed_index p packet = let i = packet / p.size in if ltb p.count i then none else some i

-- A write past the end of the list, which C does not bound, changes nothing here.
pub put_back : Pool → ℕ → Pool
put_back p packet = elim (freed_index p packet) [
  | none ↦ p
  | some i ↦ record p { list = set p.list i free }
]

-- `csp_buffer_remaining`
pub remaining_in : List State → ℕ
remaining_in [] = 0
remaining_in (s ∷ l) = (if is_free s then 1 else 0) + remaining_in l

pub remaining : Pool → ℕ
unfolding remaining_in
remaining p = remaining_in p.list

-- `csp_buffer_clone`: the size asked for is the `length` of the packet, and the whole element is
-- copied. `mem` has the contents of the elements by index.
pub clone {ℓ} : {A : Type ℓ} → (A → ℕ) → (ℕ → A) → Pool → Option ℕ → Option ℕ × Pool × (ℕ → A)
unfolding get
clone length_of mem p none = (none, p, mem)
clone length_of mem p (some packet) =
    let source = mem (packet / p.size) in
    let (copy, p') = get p (length_of source) in
    elim copy [
      | none ↦ (none, p', mem)
      | some c ↦ (some c, p', λ i. if i == c / p.size then source else mem i)
    ]

-- The pool is set up: there is an element, the list has all of them, and the last one given is
-- among them.
pub record IsPool (p : Pool) : Type 0 where
  pub some_elements : 0 < p.count
  pub some_bytes : 0 < p.size
  pub listed : length p.list ≡ p.count
  pub given_in : p.last_given < p.count
