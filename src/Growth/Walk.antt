-- ===== src/Growth/Walk.antt =====
-- The walk of tealet_stack_grow_list along `g_prev`.
use mathlib.Core.Bool.{false≢true}
use libtealet.Base.{
  has-ne, Within, ◌≤◌, ◌<◌, ◌≡◌, refl, ◌≢◌, inl, inr, sym, ap, subst, ◌∙◌, Bool, false, List, [],
  ◌∷◌, ltb, ◌==◌, erase, arith, Bool-cases, ==→eq, ==→ne, ltb→lt,
}
use libtealet.Platform.{Ptr, Platform, IsDescending}
use libtealet.Memory.{Mem}
use libtealet.Domain.{Domain, Stack, Stats, done, put_stack, update, update_self}
use libtealet.Stack.{defunct_stack, stack_unlink}
use libtealet.Growth.{grow_target, stack_grow_list}
use libtealet.Growth.Bands.{Bands, Grew-refl, Bands_congr, Bands-mono}
use libtealet.Growth.Step.{
  kept, grew, failed, gave_up, charge, stack_growto-truncate, stack_growto-partial,
  stack_growto-kept,
}
use libtealet.Growth.Walked.{
  Held, intact, lost, main_stack, Saved, Finished, Walked, TargetEnds, TargetEnds-head, erase-head,
  Walked-next, Walked-failed, Walked-stays,
}

module _ (pf : Platform) (law : IsDescending pf) (saveto target : Ptr) (fail_ok : Bool) where
  -- Beyond the first band that reaches past `saveto` there is nothing to do.
  stack_grow_list-kept :
      (lo : Ptr) (list : List Ptr) (d : Domain)
      → saveto ≤ lo
      → TargetEnds saveto target list d.stacks
      → Bands d.stacks lo list
      → stack_grow_list pf list saveto target fail_ok d ≡ (done, d)
  unfolding stack_grow_list
  stack_grow_list-kept lo [] d h far b = refl
  stack_grow_list-kept lo (j ∷ list) d h far b = elim (Bool-cases (j == target)) [
    | inl e ↦
        let f = TargetEnds-head saveto target j list d.stacks far (==→eq j target e) in
        absurd {A = _} (omega arith)
    | inr e ↦
        rw (e, stack_growto-kept pf law j saveto fail_ok d (omega arith) (omega arith))
          (stack_grow_list-kept (d.stacks j).stack_far list d (omega arith)
            (λ t. far (ground arith)) b.4)
  ]

lost-defunct :
    (m : Mem) (fail_ok : Bool) (target main_stack j : Ptr) (s : Stack)
    → fail_ok ≡ false
    → j ≢ main_stack
    → (j ≡ target → 1 < s.refcount)
    → Held m fail_ok target main_stack j s (defunct_stack s)
unfolding defunct_stack
lost-defunct m fail_ok target main_stack j s a b c = lost a b c refl refl refl refl

defunct-Saved : (s : Stack) → Saved (defunct_stack s)
unfolding defunct_stack
defunct-Saved s = inr refl

module _ (saveto target : Ptr) (fail_ok : Bool) where
  -- Nothing is left to do on a list that begins beyond `saveto`.
  Walked-rest :
      (lo : Ptr) (list : List Ptr) (d : Domain)
      → d.prev ≡ list
      → saveto ≤ lo
      → Bands d.stacks lo list
      → Walked saveto target fail_ok lo list d (done, d)
  Walked-rest lo list d e h b = record {
    frame = refl;
    supply = λ a m. m;
    held = λ k. intact (Grew-refl d.mem (d.stacks k));
    only = λ k o. refl;
    code = inl refl;
    bands = λ z. rw e (Bands-mono d.stacks lo saveto list h b);
    bands_failed = rw e b;
    sub = λ k o. rw e o;
    left = λ z k m o. absurd (false≢true (sym (rw e at o) ∙ m));
    left_failed = λ z k m o. absurd (cc);
  }

  -- The head leaves the list, and the walk ends there.
  Walked-ends :
      (lo j : Ptr) (list : List Ptr) (d : Domain) (answers : List Ptr) (stats : Stats) (s : Stack)
      → Bands d.stacks lo (j ∷ list)
      → saveto ≤ (d.stacks j).stack_far
      → Within answers d.answers
      → Held d.mem fail_ok target (main_stack d) j (d.stacks j) s
      → Finished target j s
      → Walked saveto target fail_ok lo
          (j ∷ list)
          d
          (done, record (put_stack j s (charge answers stats d)) { prev = list })
  Walked-ends lo j list d answers stats s b far wi h f =
      Walked-next saveto target fail_ok lo j list d answers stats s _ b.3 (omega arith) wi h f
        (λ z. absurd (cc))
        (Walked-rest (d.stacks j).stack_far list _ refl far (
          Bands_congr d.stacks (update d.stacks j s) (d.stacks j).stack_far list
            (λ k m. rw (has-ne j k list b.3 m)) b.4))

module _ (pf : Platform) (law : IsDescending pf) (saveto target : Ptr) (fail_ok : Bool) where
  -- The target, met at the head: its band ends at `saveto`, and it leaves the list.
  grow_target-Walked :
      (lo j : Ptr) (list : List Ptr) (d : Domain)
      → d.prev ≡ j ∷ list
      → Bands d.stacks lo (j ∷ list)
      → (d.stacks j).stack_far ≡ saveto
      → j ≡ target
      → Walked saveto target fail_ok lo (j ∷ list) d (grow_target pf j saveto fail_ok d)
  unfolding grow_target stack_unlink
  grow_target-Walked lo j list d e b far t = elim (Bool-cases (ltb 1 (d.stacks j).refcount)) [
    | inl shared ↦ rw shared (elim (stack_growto-truncate pf law j saveto fail_ok d (omega arith)) [
      | kept q le ↦ absurd (omega arith)
      | grew answers stats s q wi g es ↦
          rw (q, out)
            (Walked-ends saveto target fail_ok lo j list d answers stats s b (omega arith) wi
              (intact g) (inr (inl (omega (arith, g.same_far)))))
      | failed answers q wi why ↦ rw q (
          Walked-failed saveto target fail_ok lo j list d answers e b wi why
            (λ _. ltb→lt _ _ shared))
      | gave_up answers stats q wi nf nm ↦
          rw (q, out)
            (Walked-ends saveto target fail_ok lo j list d answers stats _ b (omega arith) wi
              (lost-defunct d.mem fail_ok target (main_stack d) j (d.stacks j) nf nm
                (λ _. ltb→lt _ _ shared))
              (inr (defunct-Saved (d.stacks j))))
    ])
    | inr own ↦
        rw (own, out)
          (subst
            (λ f.
              Walked saveto target fail_ok lo (j ∷ list) d
                (done, record d { stacks = f; prev = list }))
            (update_self d.stacks j)
            (Walked-ends saveto target fail_ok lo j list d d.answers d.stats (d.stacks j) b
              (omega arith) (λ a m. m) (intact (Grew-refl d.mem (d.stacks j)))
              (inl (t, ground arith))))
  ]
    where
      out : erase j d.prev ≡ list
      out = ap (erase j) e ∙ erase-head j list

  abbrev Walks : Ptr → List Ptr → Domain → Type 0
  Walks lo list d =
      Walked saveto target fail_ok lo list d (stack_grow_list pf list saveto target fail_ok d)

  -- One step that takes the head out of the list, and the walk along the others.
  walk-next :
      (lo j : Ptr) (list : List Ptr) (d : Domain) (answers : List Ptr) (stats : Stats) (s : Stack)
      → TargetEnds saveto target (j ∷ list) d.stacks
      → Bands d.stacks lo (j ∷ list)
      → Within answers d.answers
      → Held d.mem fail_ok target (main_stack d) j (d.stacks j) s
      → Saved s
      → ((d1 : Domain)
          → d1.prev ≡ list
          → TargetEnds saveto target list d1.stacks
          → Bands d1.stacks (d.stacks j).stack_far list
          → Walks (d.stacks j).stack_far list d1)
      → Walked saveto target fail_ok lo (j ∷ list) d (
          stack_grow_list pf list saveto target fail_ok
            (record (put_stack j s (charge answers stats d)) { prev = list }))
  walk-next lo j list d answers stats s far b wi h f next =
      Walked-next saveto target fail_ok lo j list d answers stats s _ b.3 (omega arith) wi h (inr f)
        (λ z. f)
        (next _ refl (λ t. rw (has-ne j target list b.3 t) (far (rw t (ground arith))))
          (Bands_congr d.stacks (update d.stacks j s) (d.stacks j).stack_far list
            (λ k m. rw (has-ne j k list b.3 m)) b.4))

  walk-partial :
      (lo j : Ptr) (list : List Ptr) (d : Domain)
      → d.prev ≡ j ∷ list
      → TargetEnds saveto target (j ∷ list) d.stacks
      → Bands d.stacks lo (j ∷ list)
      → (j == target) ≡ false
      → saveto < (d.stacks j).stack_far
      → ((d1 : Domain)
          → d1.prev ≡ list
          → TargetEnds saveto target list d1.stacks
          → Bands d1.stacks (d.stacks j).stack_far list
          → Walks (d.stacks j).stack_far list d1)
      → Walks lo (j ∷ list) d
  unfolding stack_grow_list stack_unlink
  walk-partial lo j list d e far b ne part next =
      rw ne (elim (stack_growto-partial pf law j saveto fail_ok d part) [
        | kept q le ↦
            rw
              (
                q,
                stack_grow_list-kept pf law saveto target fail_ok (d.stacks j).stack_far list d
                    (omega arith) (λ t. far (ground arith)) b.4,
              )
              (subst
                (λ f. Walked saveto target fail_ok lo (j ∷ list) d (done, record d { stacks = f }))
                (update_self d.stacks j)
                (Walked-stays saveto target fail_ok lo j list d d.answers d.stats (d.stacks j) e b
                  (λ a m. m) (Grew-refl d.mem (d.stacks j)) b.2 le))
        | grew answers stats s q wi g es ↦
            let kept_on =
              stack_grow_list-kept pf law saveto target fail_ok (d.stacks j).stack_far list
                (put_stack j s (charge answers stats d)) (omega arith)
                (λ t. rw (has-ne j target list b.3 t) (far (rw t (ground arith))))
                (Bands_congr d.stacks (update d.stacks j s) (d.stacks j).stack_far list
                  (λ k m. rw (has-ne j k list b.3 m)) b.4) in
            rw (q, kept_on)
              (Walked-stays saveto target fail_ok lo j list d answers stats s e b wi g
                (omega (arith, g.same_far)) (omega arith))
        | failed answers q wi why ↦ rw q (
            Walked-failed saveto target fail_ok lo j list d answers e b wi why
              (λ t. absurd (==→ne j target ne t)))
        | gave_up answers stats q wi nf nm ↦
            rw (q, out)
              (walk-next lo j list d answers stats _ far b wi
                (lost-defunct d.mem fail_ok target (main_stack d) j (d.stacks j) nf nm
                  (λ t. absurd (==→ne j target ne t)))
                (defunct-Saved (d.stacks j)) next)
      ])
    where
      out : erase j d.prev ≡ list
      out = ap (erase j) e ∙ erase-head j list

  walk-full :
      (lo j : Ptr) (list : List Ptr) (d : Domain)
      → d.prev ≡ j ∷ list
      → TargetEnds saveto target (j ∷ list) d.stacks
      → Bands d.stacks lo (j ∷ list)
      → (j == target) ≡ false
      → (d.stacks j).stack_far ≤ saveto
      → ((d1 : Domain)
          → d1.prev ≡ list
          → TargetEnds saveto target list d1.stacks
          → Bands d1.stacks (d.stacks j).stack_far list
          → Walks (d.stacks j).stack_far list d1)
      → Walks lo (j ∷ list) d
  unfolding stack_grow_list stack_unlink
  walk-full lo j list d e far b ne full next =
      rw ne (elim (stack_growto-truncate pf law j saveto fail_ok d full) [
        | kept q le ↦ absurd (omega arith)
        | grew answers stats s q wi g es ↦
            rw (q, out)
              (walk-next lo j list d answers stats s far b wi (intact g)
                (inl (omega (arith, g.same_far))) next)
        | failed answers q wi why ↦ rw q (
            Walked-failed saveto target fail_ok lo j list d answers e b wi why
              (λ t. absurd (==→ne j target ne t)))
        | gave_up answers stats q wi nf nm ↦
            rw (q, out)
              (walk-next lo j list d answers stats _ far b wi
                (lost-defunct d.mem fail_ok target (main_stack d) j (d.stacks j) nf nm
                  (λ t. absurd (==→ne j target ne t)))
                (defunct-Saved (d.stacks j)) next)
      ])
    where
      out : erase j d.prev ≡ list
      out = ap (erase j) e ∙ erase-head j list

  -- The walk of tealet_stack_grow_list from a list whose unsaved bands rise from `lo`, where
  -- the target, if it is met, ends at `saveto`. It changes stacks, the list and the accounts
  -- only. Each stack has the same image as before with perhaps more of it saved, or is given
  -- up, which happens only in a forced walk, never to the main tealet's and to the target's
  -- only if it is shared. After success the bands rise from `saveto`, and what left the list
  -- is the unshared target, saved in full or given up; after a failure the bands rise from
  -- `lo` still.
  pub stack_grow_list-Walked :
      (lo : Ptr) (list : List Ptr) (d : Domain)
      → d.prev ≡ list
      → TargetEnds saveto target list d.stacks
      → Bands d.stacks lo list
      → Walks lo list d
  unfolding stack_grow_list
  stack_grow_list-Walked lo [] d e far b = record {
    frame = refl;
    supply = λ a m. m;
    held = λ k. intact (Grew-refl d.mem (d.stacks k));
    only = λ k o. refl;
    code = inl refl;
    bands = λ z. rw e tt;
    bands_failed = rw e tt;
    sub = λ k o. rw e refl;
    left = λ z k m o. absurd (false≢true m);
    left_failed = λ z. absurd (cc);
  }
  stack_grow_list-Walked lo (j ∷ list) d e far b = elim (Bool-cases (j == target)) [
    | inl t ↦ rw t (
        grow_target-Walked lo j list d e b
          (TargetEnds-head saveto target j list d.stacks far (==→eq j target t)) (==→eq j target t))
    | inr ne ↦ elim (Bool-cases (ltb saveto (d.stacks j).stack_far)) [
      | inl part ↦
          walk-partial lo j list d e far b ne (ltb→lt _ _ part)
            (stack_grow_list-Walked (d.stacks j).stack_far list)
      | inr full ↦
          walk-full lo j list d e far b ne (ground arith)
            (stack_grow_list-Walked (d.stacks j).stack_far list)
    ]
  ]
