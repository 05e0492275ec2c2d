-- ===== src/IntrusiveList.antt =====
-- util/intrusive_linked_list/src/lib.rs: a doubly linked list whose nodes lie in its elements. A
-- `NonNull<ListNode>` is an address, and the nodes lie in a heap; the functions give back the heap.
pub mod Links
pub mod Deque
use miniature_os.Base.{ℕ, Option, none, some, Bool, true, false, Run, ok, ◌>>=◌, unwrap, sub, add64}
use miniature_os.Base.{◌==◌, if◌then◌else◌}

pub record ListNode : Type 0 where
  pub next : Option ℕ
  pub prev : Option ℕ

abbrev pub new_node : ListNode
new_node = record { next = none; prev = none }

abbrev pub Heap : Type 0
Heap = ℕ → ListNode

abbrev pub write : Heap → ℕ → ListNode → Heap
write h p node q = if q == p then node else h q

abbrev pub get_next : Heap → ℕ → Option ℕ
get_next h p = (h p).next

abbrev pub get_prev : Heap → ℕ → Option ℕ
get_prev h p = (h p).prev

unfoldable pub set_next : Heap → ℕ → Option ℕ → Heap
set_next h p next = write h p (record (h p) { next = next })

unfoldable pub set_prev : Heap → ℕ → Option ℕ → Heap
set_prev h p prev = write h p (record (h p) { prev = prev })

pub record IntrusiveLinkedList : Type 0 where
  pub head : Option ℕ
  pub tail : Option ℕ
  pub len : ℕ

abbrev pub new : IntrusiveLinkedList
new = record { head = none; tail = none; len = 0 }

abbrev pub State : Type 0
State = IntrusiveLinkedList × Heap

-- `self.len += 1`.
abbrev pub grow : IntrusiveLinkedList → Run IntrusiveLinkedList
grow list = do len ← add64 list.len 1; ok (record list { len = len })

unfoldable pub push_front : ℕ → State → Run State
push_front new (list, h) = elim list.head [
  | some head ↦ do
    let h' = set_prev (set_next h new (some head)) head (some new)
    list' ← grow (record list { head = some new })
    ok (list', h')
  | none ↦ do list' ← grow (record list { head = some new; tail = some new }); ok (list', h)
]

unfoldable pub push_back : ℕ → State → Run State
push_back new (list, h) = elim list.tail [
  | some tail ↦ do
    let h' = set_prev (set_next h tail (some new)) new (some tail)
    list' ← grow (record list { tail = some new })
    ok (list', h')
  | none ↦ do list' ← grow (record list { head = some new; tail = some new }); ok (list', h)
]

-- `map(|node| node.set_next(None))` on the new end of the list.
abbrev pub cut : Heap → Option ℕ → Heap
cut h none = h
cut h (some node) = set_next h node none

unfoldable pub pop_front : State → Run (Option ℕ × State)
pop_front (list, h) = elim list.head [
  | none ↦ ok (none, (list, h))
  | some head ↦ do
    tail ← unwrap list.tail
    len ← sub list.len 1
    if head == tail
        then ok (some head, (record list { head = none; tail = none; len = len }, h))
        else ok (
          some head,
          (record list { head = get_next h head; len = len }, cut h (get_next h head)),
        )
]

unfoldable pub pop_back : State → Run (Option ℕ × State)
pop_back (list, h) = elim list.tail [
  | none ↦ ok (none, (list, h))
  | some tail ↦ do
    head ← unwrap list.head
    len ← sub list.len 1
    if head == tail
        then ok (some tail, (record list { head = none; tail = none; len = len }, h))
        else ok (
          some tail,
          (record list { tail = get_prev h tail; len = len }, cut h (get_prev h tail)),
        )
]

unfoldable pub is_empty : IntrusiveLinkedList → Bool
is_empty list = elim list.head [ none ↦ true | some head ↦ false ]
