-- ===== src/Alarm/Queue.antt =====
-- What the alarm monitor relies on of its priority queue, and the queue of indexed_priority_queue.h as
-- one that gives it.
use packages_modules_stats_d.Common.{
  ℕ, suc, ◌≤◌, ◌≡◌, refl, ap, Option, none, some, Bool, true, false, ◌&&◌, ◌||◌, not, length,
  if◌then◌else◌, Eq, ◌∙◌, subst,
}
use packages_modules_stats_d.Alarm.Heap.{IndexedPriorityQueue, contains_alarm}
use packages_modules_stats_d.Alarm.Heap.Refines.{
  IsQueue, init-IsQueue, push-IsQueue, remove-IsQueue,
}
use packages_modules_stats_d.Alarm.Heap.Top.{IsTop, top-IsTop, pop-remove-top}
use packages_modules_stats_d.Alarm.Heap

pub record PriorityQueue (Q A : Type 0) ⦃e : Eq A⦄ (timestamp_sec : A → ℕ) : Type 1 where
  pub init : Q
  pub push : A → Q → Q
  pub remove : A → Q → Q × Bool
  pub pop : Q → Q
  pub top : Q → Option A
  pub size : Q → ℕ
  pub contains : Q → A → Bool
  pub IsValid : Q → Type 0
  pub init-IsValid : IsValid init
  pub top-init : top init ≡ none
  pub contains-init : (x : A) → contains init x ≡ false
  pub push-IsValid : (q : Q) (a : A) → IsValid q → IsValid (push a q)
  pub contains-push :
      (q : Q) (a x : A) → IsValid q → contains (push a q) x ≡ (e.beq a x || contains q x)
  pub remove-IsValid : (q : Q) (a : A) → IsValid q → IsValid (remove a q).0
  pub contains-remove :
      (q : Q) (a x : A) → IsValid q → contains (remove a q).0 x ≡ (contains q x && not (e.beq a x))
  pub remove_found : (q : Q) (a : A) → IsValid q → (remove a q).1 ≡ contains q a
  pub remove_missing : (q : Q) (a : A) → IsValid q → contains q a ≡ false → (remove a q).0 ≡ q
  pub size-remove :
      (q : Q) (a : A)
      → IsValid q
      → size q ≡ (if (remove a q).1 then suc (size (remove a q).0) else size (remove a q).0)
  pub pop-remove-top : (q : Q) (a : A) → IsValid q → top q ≡ some a → pop q ≡ (remove a q).0
  pub top_none : (q : Q) (x : A) → IsValid q → top q ≡ none → contains q x ≡ false
  pub contains-top : (q : Q) (a : A) → IsValid q → top q ≡ some a → contains q a ≡ true
  pub top_least :
      (q : Q) (a x : A)
      → IsValid q
      → top q ≡ some a
      → contains q x ≡ true
      → timestamp_sec a ≤ timestamp_sec x

module _ {A : Type 0} ⦃e : Eq A⦄ (timestamp_sec : A → ℕ) where
  pub top_is :
      (q : IndexedPriorityQueue A) (o : Option A)
      → IsQueue timestamp_sec q
      → Heap.top q ≡ o
      → IsTop timestamp_sec q o
  top_is q o v h = subst (IsTop timestamp_sec q) h (top-IsTop timestamp_sec q v)

  unfoldable pub heap_queue : PriorityQueue (IndexedPriorityQueue A) A timestamp_sec
  heap_queue = record {
    init = Heap.init;
    push = λ a. Heap.push timestamp_sec (some a);
    remove = λ a. Heap.remove timestamp_sec (some a);
    pop = Heap.pop timestamp_sec;
    top = Heap.top;
    size = λ q. length q.pq;
    contains = contains_alarm;
    IsValid = IsQueue timestamp_sec;
    init-IsValid = init-IsQueue timestamp_sec;
    top-init = refl;
    contains-init = λ x. (top-IsTop timestamp_sec Heap.init (init-IsQueue timestamp_sec)).1 x;
    push-IsValid = λ q a v. (push-IsQueue timestamp_sec q a v).0;
    contains-push = λ q a x v. (push-IsQueue timestamp_sec q a v).1 x;
    remove-IsValid = λ q a v. (remove-IsQueue timestamp_sec q a v).0;
    contains-remove = λ q a x v. (remove-IsQueue timestamp_sec q a v).1 x;
    remove_found = λ q a v. (remove-IsQueue timestamp_sec q a v).2;
    remove_missing = λ q a v. (remove-IsQueue timestamp_sec q a v).4;
    size-remove = λ q a v. (remove-IsQueue timestamp_sec q a v).3;
    pop-remove-top =
        λ q a v h. pop-remove-top timestamp_sec q v ∙ ap (λ t. (Heap.remove timestamp_sec t q).0) h;
    top_none = λ q x v h. (top_is q none v h).1 x;
    contains-top = λ q a v h. (top_is q (some a) v h).0;
    top_least = λ q a x v h. (top_is q (some a) v h).1 x;
  }
