-- ===== src/Gc/Work.antt =====
-- propagateMarks ends (src/gc/gc_mark.cpp): each round takes from the white and the gray objects.
use mathlib.Core.List.{Memᴰ}
use mathlib.Core.List.Memᴰ
use lua.Prelude.{
  ℕ, zero, suc, ◌+◌, ◌-◌, ◌≤◌, ◌<◌, ◌≡◌, inl, inr, refl, true, false, List, [], ◌∷◌, ap, ◌∙◌, sym,
  subst, Bool-cases, if◌then◌else◌, length, length-append, arith, get_or, ◌==◌,
}
use lua.Gc.Heap.{
  Collector, Store, GcColor, gray, black, is_white, color_of, children, set_color, is_table,
}
use lua.Gc.Marking.{
  mark_object, mark_objects, mark_table, mark_children, propagate_one, propagate_marks, drop_at,
}
use lua.Gc.Shades.{
  color-set_color, color_self, mark_object-Shades, color-mark_table, mark_children-Shades,
  children-set_color,
}
use lua.Gc.Queue.{length-drop_at}
use lua.Gc.Rounds.{Round, blacken, propagate_one-Round}
use lua.Gc.Tricolor.{List-cases}

-- The number of white objects in a list
abbrev pub whites : Store → List ℕ → ℕ
whites m [] = 0
whites m (a ∷ rest) = (if is_white (m a).color then 1 else 0) + whites m rest

pub whites-length : (m : Store) (xs : List ℕ) → whites m xs ≤ length xs
whites-length m [] = omega arith
whites-length m (a ∷ rest) = ground (arith, whites-length m rest)

-- Colours that are white only where they were before
whites_mono :
    (m k : Store) (xs : List ℕ)
    → ((b : ℕ) → is_white (m b).color ≡ false → is_white (k b).color ≡ false)
    → whites k xs ≤ whites m xs
whites_mono m k [] h = omega arith
whites_mono m k (a ∷ rest) h = ground (arith, whites_mono m k rest h, h a)

whites_drop :
    (m k : Store) (xs : List ℕ) (a : ℕ)
    → ((b : ℕ) → is_white (m b).color ≡ false → is_white (k b).color ≡ false)
    → Memᴰ a xs
    → is_white (m a).color ≡ true
    → is_white (k a).color ≡ false
    → whites k xs < whites m xs
whites_drop m k [] a h i w n = absurd (Memᴰ.not-nil i)
whites_drop m k (x ∷ rest) a h i w n = elim (Memᴰ.cases_cons i) [
  | inl e ↦
      let w' : is_white (m x).color ≡ true = ap (λ (y : ℕ). is_white (m y).color) (sym e) ∙ w in
      let n' : is_white (k x).color ≡ false = ap (λ (y : ℕ). is_white (k y).color) (sym e) ∙ n in
      rw (w', n') (omega (arith, whites_mono m k rest h))
  | inr j ↦ ground (arith, whites_drop m k rest a h j w n, h x)
]

abbrev pub work : Collector → ℕ
work s = whites s.memory s.all_objects + length s.gray_list

colored :
    (m : Store) (a b : ℕ) (c : GcColor)
    → is_white c ≡ false
    → is_white (m b).color ≡ false
    → is_white (set_color m a c b).color ≡ false
colored m a b c h w =
    ap is_white (color-set_color m a b c)
    ∙ elim (Bool-cases (a == b)) [ inl e ↦ rw e h | inr e ↦ rw e w ]

whiten_one :
    (s : Collector) (a : ℕ)
    → Memᴰ a s.all_objects
    → is_white (color_of s a) ≡ true
    → whites (set_color s.memory a gray) s.all_objects < whites s.memory s.all_objects
whiten_one s a i w =
    whites_drop s.memory (set_color s.memory a gray) s.all_objects a
      (λ b. colored s.memory a b gray refl) i w (ap is_white (color_self s.memory a a gray refl))

mark_object-work : (s : Collector) (a : ℕ) → Memᴰ a s.all_objects → work (mark_object s a) ≤ work s
unfolding mark_object
mark_object-work s a i = elim (Bool-cases (is_white (color_of s a))) [
  | inl w ↦ rw w (omega (arith, whiten_one s a i w, length-append s.gray_list (a ∷ [])))
  | inr w ↦ rw w (omega arith)
]

pub mark_objects-work :
    (s : Collector) (new : List ℕ)
    → ((b : ℕ) → Memᴰ b new → Memᴰ b s.all_objects)
    → work (mark_objects s new) ≤ work s
unfolding mark_objects
mark_objects-work s [] h = omega arith
mark_objects-work s (a ∷ rest) h =
    let same = (mark_object-Shades s a).same_objects in
    let later =
      mark_objects-work (mark_object s a) rest
        (λ b i. subst (λ (xs : List ℕ). Memᴰ b xs) (sym same) (h b (Memᴰ.tail i))) in
    omega (arith, later, mark_object-work s a (h a (Memᴰ.head refl)))

mark_table-work : (s : Collector) (a : ℕ) → work (mark_table s a) ≤ work s
unfolding mark_table
mark_table-work s a = omega (
  arith,
  whites_mono s.memory (mark_table s a).memory s.all_objects
      (λ b w. ap is_white (color-mark_table s a b) ∙ w),
)

mark_children-work :
    (s : Collector) (a : ℕ)
    → ((b : ℕ) → Memᴰ b (children (s.memory a)) → Memᴰ b s.all_objects)
    → work (mark_children s a) ≤ work s
unfolding mark_children mark_table
mark_children-work s a h = elim (Bool-cases (is_table (s.memory a).type_)) [
  | inl e ↦ rw e (
      omega
        (arith, mark_objects-work (mark_table s a) (children (s.memory a)) h, mark_table-work s a))
  | inr e ↦ rw e (mark_objects-work s (children (s.memory a)) h)
]

-- The pointers of the heap stay within it.
pub record Within (s : Collector) : Type 0 where
  pub inside :
      (a b : ℕ) → Memᴰ a s.all_objects → Memᴰ b (children (s.memory a)) → Memᴰ b s.all_objects
  pub grays : (a : ℕ) → Memᴰ a s.gray_list → Memᴰ a s.all_objects

pub Round-Within : (obj : ℕ) (s u : Collector) → Round obj s u → Within s → Within u
Round-Within obj s u r h = record {
  inside = λ a b i j. member (
      h.inside a b (subst (λ (xs : List ℕ). Memᴰ a xs) r.same_objects i)
        (subst (λ (xs : List ℕ). Memᴰ b xs) (r.same_children a) j));
  grays = λ a i. elim (r.source a i) [
    | inl j ↦ member (h.grays a j)
    | inr j ↦ member (h.inside obj a (h.grays obj r.taken) j)
  ];
}
  where
    member : {b : ℕ} → Memᴰ b s.all_objects → Memᴰ b u.all_objects
    member {b} i = subst (λ (xs : List ℕ). Memᴰ b xs) (sym r.same_objects) i

pub Mem-get_or : (xs : List ℕ) (i d : ℕ) → i < length xs → Memᴰ (get_or xs i d) xs
Mem-get_or [] i d h = absurd (omega arith)
Mem-get_or (x ∷ xs) zero d h = Memᴰ.head refl
Mem-get_or (x ∷ xs) (suc i) d h = Memᴰ.tail (Mem-get_or xs i d (omega arith))

module _ (s : Collector) (obj index : ℕ) (h : Within s) where
  abbrev seen : Collector
  seen = mark_children (blacken s obj) obj

  scan-work : Memᴰ obj s.all_objects → work seen ≤ work s
  scan-work i =
      let inner = mark_children-work (blacken s obj) obj (λ b j.
        h.inside obj b i
          (subst (λ (xs : List ℕ). Memᴰ b xs) (children-set_color s.memory obj obj black) j)) in
      let outer =
        whites_mono s.memory (set_color s.memory obj black) s.all_objects
          (λ b. colored s.memory obj b black refl) in
      omega (arith, inner, outer)

  removed-work :
      1 ≤ length s.gray_list
      → Memᴰ obj s.all_objects
      → work (record seen { gray_list = drop_at seen.gray_list index }) < work s
  removed-work some i =
      let (ns, e, _) = (mark_children-Shades (blacken s obj) obj).appended in
      omega (
        arith,
        scan-work i,
        length-drop_at seen.gray_list index,
        ap (length {A = ℕ}) e,
        length-append s.gray_list ns,
      )

pub propagate_one-work :
    (s : Collector) → 1 ≤ length s.gray_list → Within s → work (propagate_one s) < work s
unfolding propagate_one
propagate_one-work s some h =
    let index = length s.gray_list - 1 in
    let obj = get_or s.gray_list index 0 in
    removed-work s obj index h some (h.grays obj (Mem-get_or s.gray_list index 0 (omega arith)))

-- With a budget for every white and every gray object, the loop ends with an empty gray list and
-- has processed no more objects than that.
pub propagate_marks_ends :
    (budget : ℕ) (s : Collector)
    → Within s
    → work s ≤ budget
    → ((propagate_marks budget s).0.gray_list ≡ []) × ((propagate_marks budget s).1 ≤ work s)
unfolding propagate_marks
propagate_marks_ends zero s h enough = elim (List-cases s.gray_list) [
  | inl e ↦ (e, omega arith)
  | inr (y, rest, e) ↦ absurd (omega (arith, ap (length {A = ℕ}) e))
]
propagate_marks_ends (suc budget) s h enough = elim (List-cases s.gray_list) [
  | inl e ↦ rw (e, propagate_marks) (e, omega arith)
  | inr (y, rest, e) ↦
      let (obj, r) = propagate_one-Round s y rest e in
      let less = propagate_one-work s (omega (arith, ap (length {A = ℕ}) e)) h in
      let (ends, few) =
        propagate_marks_ends budget (propagate_one s) (Round-Within obj s (propagate_one s) r h)
          (omega (arith, less)) in
      rw (e, propagate_marks) (ends, omega (arith, few, less, ap (length {A = ℕ}) e))
]
