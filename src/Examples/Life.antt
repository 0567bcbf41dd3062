-- ===== src/Examples/Life.antt =====
-- Lives of the domain of three tealets.
use mathlib.Core.Bool.{false≢true}
use libtealet.Base.{
  ◌≡◌, ◌≢◌, ◌≤◌, ◌<◌, refl, sym, subst, ◌∙◌, inl, inr, true, false, not, le→ltb, ltb, [], ◌∷◌, none,
  ◌==◌, if◌then◌else◌, has, arith, Bool-cases, ==→eq, ==→ne, ne→==,
}
use libtealet.Platform.{Ptr, null}
use libtealet.Domain.{Domain, Tealet, freed_tealet, xfer_default, err_mem}
use libtealet.Stats.{malloc}
use libtealet.Stack.{
  is_defunct, stack_restore, stack_new, stack_decref, stack_link, stack_unlink, chunk_decref,
}
use libtealet.Growth.{stack_grow_list, stack_growto, stack_saveto, grow_target, truncate}
use libtealet.Integrity.{
  guard_unprotect_current, guard_protect_current, snapshot_verify_current, snapshot_capture_current,
  integrity_plan_for_current,
}
use libtealet.Transfer.{
  abs_ptr_distance, check_caller_is_current, save_restore_cb, save_state, save_current,
  restore_state, rearm, switch_ended, switch_finish, switch_checked, switchstack,
}
use libtealet.Api.{
  stage, xfer_done, xfer_staged, xfer_inner, switch, lock_auto, new, delete, duplicate,
}
use libtealet.Api.Setup.{initialize}
use libtealet.Transfer.Suspend.{fail_ok}
use libtealet.System.{IsSound}
use libtealet.System.Transfer.{switchstack-Outcome}
use libtealet.System.Enrol.{IsUnused, Copied, duplicate-IsSound}
use libtealet.System.Delete.{delete-IsSound}
use libtealet.System.Removed.{Removed}
use libtealet.System.Kept.{Kept}
use libtealet.System.Birth.{reached-IsSound}
use libtealet.System.Return.{round_trip}
use libtealet.System.Step.{
  Step, Away, here, after, start, onward, runs, creates, switches, Away-Kept,
}
use libtealet.System.Outcome.{Called, Outcome}
use libtealet.Examples.{
  domain, domain-Sliced, domain-IsFresh, platform, platform-IsDescending, stackman,
  stackman-IsStackman,
}

-- Each of the three tealets, and any other address.
each_tealet :
    (P : Ptr → Tealet → Type 0)
    → P 7 (domain.tealets 7)
    → P 5 (domain.tealets 5)
    → P 1 (domain.tealets 1)
    → ((t : Ptr) → has t domain.all ≡ false → P t freed_tealet)
    → (t : Ptr) → P t (domain.tealets t)
each_tealet P a b c z t = elim (Bool-cases (t == 7)) [
  | inl e ↦ subst (λ i. P i (domain.tealets i)) (sym (==→eq t 7 e)) a
  | inr e ↦ elim (Bool-cases (t == 5)) [
    | inl f ↦ subst (λ i. P i (domain.tealets i)) (sym (==→eq t 5 f)) b
    | inr f ↦ elim (Bool-cases (t == 1)) [
      | inl g ↦ subst (λ i. P i (domain.tealets i)) (sym (==→eq t 1 g)) c
      | inr g ↦ let out : has t domain.all ≡ false = rw (e, f, g) refl in rw (e, f, g) (z t out)
    ]
  ]
]

pub domain-IsSound : IsSound domain
domain-IsSound = record {
  sliced = domain-Sliced;
  distinct = (refl, (refl, (refl, tt)));
  no_null = refl;
  main_listed = refl;
  current_listed = refl;
  strangers =
      each_tealet (λ t x. has t domain.all ≡ false → x.stack ≡ null)
        (λ h. absurd (false≢true (sym h))) (λ h. absurd (false≢true (sym h)))
        (λ h. absurd (false≢true (sym h))) (λ t o h. refl);
  counted = λ p n. elim (Bool-cases (p == 20)) [
    | inl e ↦ rw (e, ==→eq p 20 e) refl
    | inr e ↦ elim (Bool-cases (p == 22)) [
      | inl f ↦ rw (e, f, ==→eq p 22 f) refl
      | inr f ↦
          rw
            (
              e,
              f,
              ne→== 20 p (λ i. ==→ne p 20 e (sym i)),
              ne→== 22 p (λ i. ==→ne p 22 f (sym i)),
              ne→== null p (λ i. n (sym i)),
            )
            refl
    ]
  ];
  running = refl;
  staying = each_tealet (λ t x. x.flags.exiting ≡ false) refl refl refl (λ t o. refl);
  suspended =
      each_tealet
        (λ t x.
          has t domain.all ≡ true
          → t ≢ domain.current
          → x.flags.bound ≡ true
          → x.flags.exited ≡ false
          → x.flags.is_defunct ≡ false
          → x.stack ≢ null)
        (λ h n b x f z. absurd {A = _} (omega arith)) (λ h n b x f z. n refl)
        (λ h n b x f z. absurd {A = _} (omega arith))
        (λ t o h n b x f. absurd (false≢true (sym o ∙ h)));
}

pub domain-Called : Called domain 1
domain-Called = record {
  inside = omega arith;
  fresh = domain-IsFresh;
  other = λ e. omega arith;
  is_known = refl;
  bound = refl;
  secure = inl refl;
}

-- Tealet 5 has transferred to the main tealet, which has cleared some of its stack.
abbrev ran : Domain
ran = (switchstack platform stackman 1 33 domain).2

abbrev later : Domain
later = record ran {
  mem = λ x. if ltb x 50 then 0 else ran.mem x;
  sp = 40;
  probe = 40;
  answers = 23 ∷ [];
}

-- What the two transfers come to.
transfers :
    ((ran.tealets ran.current).stack_far ≡ 100)
    × ((switchstack platform stackman 1 33 domain).1 ≢ none)
    × Called later 5
    × ((switchstack platform stackman 5 44 later).1 ≢ none)
unfolding switchstack is_defunct abs_ptr_distance check_caller_is_current switch_checked
    snapshot_verify_current guard_unprotect_current switch_finish switch_ended rearm
    integrity_plan_for_current snapshot_capture_current guard_protect_current save_restore_cb
    save_state save_current restore_state stack_grow_list stack_growto grow_target stack_unlink
    stack_saveto truncate stack_new stack_link stack_decref chunk_decref stack_restore malloc
transfers = (
  refl,
  (λ e. absurd (cc)),
  record {
    inside = omega arith;
    fresh = λ a h n. elim (Bool-cases (a == 23)) [
      | inl e ↦ rw (==→eq a 23 e) refl
      | inr e ↦ absurd (false≢true (rw e at h))
    ];
    other = λ e. absurd {A = _} (omega arith);
    is_known = refl;
    bound = refl;
    secure = inl refl;
  },
  (λ e. absurd (cc)),
)

later-Away : Away platform stackman 5 ran later
later-Away =
    after here
      (runs later.mem 40 40 (23 ∷ [])
        (λ x h. rw (le→ltb x 50 (omega (arith, h, transfers.0))) refl))
      (λ e. absurd {A = _} (omega arith))

round_trip_example :
    ((switchstack platform stackman 5 44 later).2.current ≡ 5)
    × ((switchstack platform stackman 5 44 later).2.sp ≡ 5)
    × ((x : Ptr) → 5 ≤ x → x < 7 → (switchstack platform stackman 5 44 later).2.mem x ≡ x)
round_trip_example =
    round_trip platform platform-IsDescending stackman stackman-IsStackman domain 1 33
      domain-IsSound refl domain-Called refl transfers.1 later 44 later-Away transfers.2 transfers.3

switchstack-Outcome_example : Outcome domain 1 33 (switchstack platform stackman 1 33 domain)
switchstack-Outcome_example =
    switchstack-Outcome platform platform-IsDescending stackman stackman-IsStackman 1 33 domain
      domain-IsSound domain-Called

pub domain-IsUnused : IsUnused domain
domain-IsUnused a h n = elim (Bool-cases (a == 21)) [
  | inl e ↦ rw (==→eq a 21 e) refl
  | inr e ↦ elim (Bool-cases (a == 23)) [
    | inl f ↦ rw (==→eq a 23 f) refl
    | inr f ↦ absurd (false≢true (rw (e, f) at h))
  ]
]

staged-Called : Called (stage xfer_default (lock_auto domain)) 1
unfolding stage lock_auto
staged-Called = record {
  inside = omega arith;
  fresh = domain-IsFresh;
  other = λ e. absurd {A = _} (omega arith);
  is_known = refl;
  bound = refl;
  secure = inl refl;
}

enough : (switch platform stackman 1 33 xfer_default domain).0 ≢ err_mem
unfolding switch xfer_inner xfer_staged xfer_done stage lock_auto switchstack is_defunct
    abs_ptr_distance check_caller_is_current switch_checked snapshot_verify_current
    guard_unprotect_current switch_finish switch_ended rearm integrity_plan_for_current
    snapshot_capture_current guard_protect_current save_restore_cb save_state save_current
    restore_state stack_grow_list stack_growto grow_target stack_unlink stack_saveto truncate
    stack_new stack_link stack_decref chunk_decref stack_restore malloc
enough e = absurd (cc)

forced_not : not (fail_ok (stage xfer_default (lock_auto domain))) ≡ false
unfolding stage lock_auto
forced_not = refl

-- Tealet 7 waits while tealet 5 transfers to the main tealet.
waiting : Away platform stackman 7 domain (switch platform stackman 1 33 xfer_default domain).2
waiting =
    after here
      (subst
        (λ b.
          Step platform stackman b 1 domain (switch platform stackman 1 33 xfer_default domain).2)
        forced_not (switches 1 33 xfer_default (refl, refl) refl staged-Called enough))
      (λ e. absurd {A = _} (omega arith))

Away-Kept_example : Kept domain (switch platform stackman 1 33 xfer_default domain).2 7
Away-Kept_example =
    Away-Kept platform platform-IsDescending stackman stackman-IsStackman 7 domain
      (switch platform stackman 1 33 xfer_default domain).2 waiting domain-IsSound
      ((λ e. absurd {A = _} (omega arith)), (omega arith, refl))

-- A new domain, with the main tealet at 21.
abbrev pub born : Domain
born = (initialize platform 0 50 domain).1

pub born-IsUnused : IsUnused born
unfolding initialize malloc
born-IsUnused a h n = elim (Bool-cases (a == 23)) [
  | inl e ↦ rw (==→eq a 23 e) refl
  | inr e ↦ absurd (false≢true (rw e at h))
]

pub born-ne : (initialize platform 0 50 domain).0 ≢ null
unfolding initialize malloc
born-ne e = absurd {A = _} (omega arith)

reached-IsSound_example : IsSound (new platform born).1
reached-IsSound_example =
    reached-IsSound platform platform-IsDescending stackman stackman-IsStackman 0 50 domain
      (new platform born).1 born-ne (onward start (creates born-IsUnused))

delete-IsSound_example :
    IsSound (delete platform 7 domain) × Removed (lock_auto domain) (delete platform 7 domain) 7
delete-IsSound_example =
    delete-IsSound platform 7 domain domain-IsSound refl (λ e. absurd {A = _} (omega arith))
      (λ e. absurd {A = _} (omega arith))

duplicate-IsSound_example :
    IsSound (duplicate platform 7 domain).1 × Copied domain 7 (duplicate platform 7 domain)
duplicate-IsSound_example =
    duplicate-IsSound platform domain domain-IsSound domain-IsUnused 7 refl
      (λ e. absurd {A = _} (omega arith)) (λ e. absurd {A = _} (omega arith))
