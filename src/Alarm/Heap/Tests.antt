-- ===== src/Alarm/Heap/Tests.antt =====
-- The priority queue at concrete elements: the numbers, at the times of their last digits.
use packages_modules_stats_d.Common.{ℕ, ◌%◌, ◌≡◌, refl, some, List, [], ◌∷◌, nat_eq}
use packages_modules_stats_d.Alarm.Heap.{
  IndexedPriorityQueue, contains_alarm, swap_indices, sift_up, sift_down, push, remove, pop, top,
  init, fill_gap, higher, child_of,
}
use packages_modules_stats_d.Common.Dict.{get, put, erase}
use packages_modules_stats_d.Alarm.Heap.Refines.{
  IsQueue, init-IsQueue, push-IsQueue, remove-IsQueue,
}
use packages_modules_stats_d.Alarm.Heap.Top.{top-pop_lem}

abbrev last_digit : ℕ → ℕ
last_digit n = n % 10

abbrev add_all : List ℕ → IndexedPriorityQueue ℕ
add_all [] = init
add_all (a ∷ rest) = push last_digit (some a) (add_all rest)

abbrev five : IndexedPriorityQueue ℕ
five = add_all (13 ∷ 21 ∷ 8 ∷ 5 ∷ 7 ∷ [])

add_all-IsQueue : (l : List ℕ) → IsQueue last_digit (add_all l)
add_all-IsQueue [] = init-IsQueue last_digit
add_all-IsQueue (a ∷ rest) = (push-IsQueue last_digit (add_all rest) a (add_all-IsQueue rest)).0

five_pq : five.pq ≡ 21 ∷ 13 ∷ 8 ∷ 7 ∷ 5 ∷ []
unfolding push sift_up swap_indices contains_alarm higher get put
five_pq = refl

remove_middle : (remove last_digit (some 13) five).0.pq ≡ 21 ∷ 5 ∷ 8 ∷ 7 ∷ []
unfolding remove push sift_up sift_down swap_indices contains_alarm higher child_of fill_gap get put
    erase
remove_middle = refl

pop_one : (pop last_digit five).pq ≡ 13 ∷ 5 ∷ 8 ∷ 7 ∷ []
unfolding pop push sift_up sift_down swap_indices contains_alarm higher child_of fill_gap get put
    erase
pop_one = refl

push-IsQueue_example : IsQueue last_digit (push last_digit (some 30) five)
push-IsQueue_example =
    (push-IsQueue last_digit five 30 (add_all-IsQueue (13 ∷ 21 ∷ 8 ∷ 5 ∷ 7 ∷ []))).0

remove-IsQueue_example : IsQueue last_digit (remove last_digit (some 13) five).0
remove-IsQueue_example =
    (remove-IsQueue last_digit five 13 (add_all-IsQueue (13 ∷ 21 ∷ 8 ∷ 5 ∷ 7 ∷ []))).0

top-pop_lem_example : pop last_digit five ≡ (remove last_digit (top five) five).0
top-pop_lem_example = (top-pop_lem last_digit five (add_all-IsQueue (13 ∷ 21 ∷ 8 ∷ 5 ∷ 7 ∷ []))).1
