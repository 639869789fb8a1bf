-- ===== src/Upvalues/Inserted.antt =====
-- What `findOrCreateUpvalue` changes where it creates an upvalue (src/vm/state/lua_state.cpp).
use mathlib.Core.List.{Memᴰ}
use mathlib.Core.List.Memᴰ
use lua.Prelude.{ℕ, ◌≡◌, ◌≢◌, refl, List, [], ◌∷◌, ◌++◌, Option, none, some, ◌∙◌, ap, sym, subst}
use lua.Upvalues.Cells.{Upvalue, LuaState, put, set_next, create_open, insert_upvalue}
use lua.Upvalues.Links.{put_self, put-other, put-part, Linked, Descending}
use lua.Upvalues.Finding.{head_of, last_of}
use lua.Upvalues.Insertion.{last, Mem-last, last_of_lem, Relinked, Relinked-Linked, head-Linked}

module _ {ℓ} {v : Type ℓ} where
  -- An upvalue without its link
  abbrev pub core : Upvalue v → Upvalue v
  core o = record o { next = none }

  insert-core :
      (nil : v) (fresh i : ℕ) (s : LuaState v) (prev curr : Option ℕ) (w : ℕ)
      → core ((insert_upvalue nil fresh i s prev curr).memory w)
        ≡ core (put s.memory fresh (create_open nil i) w)
  unfolding insert_upvalue
  insert-core nil fresh i s none curr w =
      put-part core (put s.memory fresh (create_open nil i)) fresh w _ refl
  insert-core nil fresh i s (some q) curr w =
      let m = put s.memory fresh (create_open nil i) in
      put-part core (set_next m fresh curr) q w _ refl ∙ put-part core m fresh w _ refl

  pub insert-stack :
      (nil : v) (fresh i : ℕ) (s : LuaState v) (prev curr : Option ℕ)
      → (insert_upvalue nil fresh i s prev curr).stack ≡ s.stack
  unfolding insert_upvalue
  insert-stack nil fresh i s none curr = refl
  insert-stack nil fresh i s (some q) curr = refl

  -- An address other than the new one keeps all but its link.
  pub insert-others :
      (nil : v) (fresh i : ℕ) (s : LuaState v) (prev curr : Option ℕ) (w : ℕ)
      → fresh ≢ w
      → core ((insert_upvalue nil fresh i s prev curr).memory w) ≡ core (s.memory w)
  insert-others nil fresh i s prev curr w ne =
      insert-core nil fresh i s prev curr w ∙ ap core (put-other s.memory fresh w _ ne)

  pub insert-fresh :
      (nil : v) (fresh i : ℕ) (s : LuaState v) (prev curr : Option ℕ)
      → core ((insert_upvalue nil fresh i s prev curr).memory fresh) ≡ create_open nil i
  insert-fresh nil fresh i s prev curr =
      insert-core nil fresh i s prev curr fresh
      ∙ ap core (put_self s.memory fresh fresh (create_open nil i) refl)

  link_to : (m : ℕ → Upvalue v) (u : ℕ) (n : Option ℕ) → (set_next m u n u).next ≡ n
  link_to m u n = ap (λ (o : Upvalue v). o.next) (put_self m u u (record (m u) { next = n }) refl)

  link-elsewhere :
      (m : ℕ → Upvalue v) (u w : ℕ) (n : Option ℕ) → u ≢ w → (set_next m u n w).next ≡ (m w).next
  link-elsewhere m u w n ne =
      ap (λ (o : Upvalue v). o.next) (put-other m u w (record (m u) { next = n }) ne)

  put-next : (m : ℕ → Upvalue v) (u w : ℕ) (o : Upvalue v) → u ≢ w → (put m u o w).next ≡ (m w).next
  put-next m u w o ne = ap (λ (x : Upvalue v). x.next) (put-other m u w o ne)

  -- The list once the new upvalue stands in it
  pub insert-Linked :
      (nil : v) (fresh i : ℕ) (s : LuaState v) (before after : List ℕ)
      → Linked s.memory s.open_upvalues (before ++ after)
      → Descending s.memory (before ++ after)
      → ¬ Memᴰ fresh (before ++ after)
      → (let t = insert_upvalue nil fresh i s (last_of none before) (head_of after) in
          Linked t.memory t.open_upvalues (before ++ fresh ∷ after))
  unfolding insert_upvalue
  insert-Linked nil fresh i s [] after l d new =
      let m = put s.memory fresh (create_open nil i) in
      head-Linked s.memory (set_next m fresh (head_of after)) s.open_upvalues fresh after l
        (link_to m fresh (head_of after))
        (λ w j.
          let ne : fresh ≢ w = λ e. new (subst (λ k. Memᴰ k after) (sym e) j) in
          link-elsewhere m fresh w (head_of after) ne ∙ put-next s.memory fresh w _ ne)
  insert-Linked nil fresh i s (x ∷ before) after l d new =
      let m = put s.memory fresh (create_open nil i) in
      let n = set_next m fresh (head_of after) in
      let q = last x before in
      let apart : q ≢ fresh = λ e.
        new (Memᴰ.append_left after (subst (λ k. Memᴰ k (x ∷ before)) e (Mem-last x before))) in
      let r : Relinked fresh q after s.memory (set_next n q (some fresh)) = record {
        at_last = link_to n q (some fresh);
        at_fresh = link-elsewhere n q fresh (some fresh) apart ∙ link_to m fresh (head_of after);
        elsewhere = λ w ne ne'.
            link-elsewhere n q w (some fresh) ne'
            ∙ link-elsewhere m fresh w (head_of after) ne
            ∙ put-next s.memory fresh w _ ne;
      } in
      let links =
        Relinked-Linked fresh x before after s.memory (set_next n q (some fresh)) s.open_upvalues l
          d new r in
      subst
        (λ (p : Option ℕ).
          let t : LuaState v = insert_upvalue nil fresh i s p (head_of after) in
          Linked t.memory t.open_upvalues (x ∷ before ++ fresh ∷ after))
        (sym (last_of_lem none x before)) links
