-- ===== src/Processes/Past.antt =====
-- Runs of the two processes, up to the one where one of them tests `ar[0][0]<ITER` before the other one takes its
-- last turn.
use node2x6x2b.Base.{
  ℕ, zero, suc, ◌+◌, ◌*◌, ◌%◌, ◌≤◌, ◌<◌, ◌≡◌, refl, arith, true, false, some, ltb, ◌==◌,
  if◌then◌else◌, update,
}
use node2x6x2b.Processes.{
  Place, row, Next, process_step, Shared, at_start, Leads, first_goes, second_goes, stays, goes,
}

-- Steps of one process, whose calls of `virt_to_phys_user` succeed.
pub data Solo (most turn : ℕ) (t : Next) : Next → Type 0 where
  rests : Solo most turn t t
  moves :
      (t' t'' : Next)
      → Solo most turn t t'
      → process_step most turn true t'.place t'.ar ≡ some t''
      → Solo most turn t t''

pub both : {most : ℕ} {s s' s'' : Shared} → Leads most s s' → Leads most s' s'' → Leads most s s''
both run stays = run
both run (goes t t' more step) = goes t t' (both run more) step

pub first_solo :
    {most : ℕ} {t t' : Next} (q : Place)
    → Solo most 0 t t'
    → Leads most
        (record { ar = t.ar; first = t.place; second = q })
        (record { ar = t'.ar; first = t'.place; second = q })
first_solo q rests = stays
first_solo q (moves t' t'' run e) = goes _ _ (first_solo q run) (first_goes true t'' e)

pub second_solo :
    {most : ℕ} {t t' : Next} (p : Place)
    → Solo most 1 t t'
    → Leads most
        (record { ar = t.ar; first = p; second = t.place })
        (record { ar = t'.ar; first = p; second = t'.place })
second_solo p rests = stays
second_solo p (moves t' t'' run e) = goes _ _ (second_solo p run) (second_goes true t'' e)

abbrev pub at : Place → (ℕ → ℕ) → Next
at p ar = record { ar = ar; place = p }

pub tests :
    (most turn : ℕ) (ar : ℕ → ℕ)
    → ar 0 < most
    → Solo most turn (at Place.loop ar) (at Place.parity ar)
unfolding process_step
tests most turn ar more =
    moves _ _ rests (let below : ltb (ar 0) most ≡ true = ground (arith, more) in rw below)

pub ends :
    (most turn : ℕ) (ar : ℕ → ℕ) → most ≤ ar 0 → Solo most turn (at Place.loop ar) (at Place.end ar)
unfolding process_step
ends most turn ar over =
    moves _ _ rests (let above : ltb (ar 0) most ≡ false = ground (arith, over) in rw above)

-- One turn.
abbrev bump : ℕ → (ℕ → ℕ) → ℕ → ℕ
bump j ar = update ar j (ar j + 1)

abbrev pub bumped : (ℕ → ℕ) → ℕ → ℕ
bumped ar = bump 0 (bump 3 (bump 2 (bump 1 ar)))

assigns :
    (most turn k j : ℕ) (ar : ℕ → ℕ) (p : Place)
    → row k ≡ j
    → (if k == 3 then Place.loop else Place.load (k + 1)) ≡ p
    → Solo most turn (at (Place.load k) ar) (at p (bump j ar))
unfolding process_step
assigns most turn k j ar p e at_p =
    moves (at (Place.store k (ar (row k) + 1)) ar) _ (moves _ _ rests refl) (rw (e, at_p))

pub chained :
    {most turn : ℕ} {t t' t'' : Next}
    → Solo most turn t t'
    → Solo most turn t' t''
    → Solo most turn t t''
chained run rests = run
chained run (moves u u' more e) = moves u u' (chained run more) e

pub turn_taken :
    (most turn : ℕ) (ar : ℕ → ℕ)
    → ar 0 % 2 ≡ turn
    → Solo most turn (at Place.parity ar) (at Place.loop (bumped ar))
unfolding process_step
turn_taken most turn ar mine =
    let it_is : (ar 0 % 2 == turn) ≡ true = ground (arith, mine) in
    let starts : Solo most turn (at Place.parity ar) (at (Place.load 0) ar) =
      moves _ _ rests (rw it_is) in
    chained starts (
      chained (assigns most turn 0 1 ar (Place.load 1) refl refl) (
        chained (assigns most turn 1 2 _ (Place.load 2) refl refl) (
          chained (assigns most turn 2 3 _ (Place.load 3) refl refl)
            (assigns most turn 3 0 _ Place.loop refl refl))))

-- Both processes are before the tests of their loops.
abbrev at_loops : (ℕ → ℕ) → Shared
at_loops ar = record { ar = ar; first = Place.loop; second = Place.loop }

abbrev pub cleared : (ℕ → ℕ) → ℕ → ℕ
cleared ar = update (update (update (update ar 0 0) 1 0) 2 0) 3 0

pub clears :
    (most turn : ℕ) (ar : ℕ → ℕ)
    → Solo most turn (at (Place.clear 0) ar) (at Place.loop (cleared ar))
unfolding process_step
clears most turn ar =
    moves (at Place.report (cleared ar)) _
      (moves (at (Place.clear 3) _) _
        (moves (at (Place.clear 2) _) _ (moves (at (Place.clear 1) _) _ (moves _ _ rests refl) refl)
          refl)
        refl)
      refl

pub begins : (most : ℕ) (ar : ℕ → ℕ) → Leads most (at_start ar) (at_loops (cleared ar))
unfolding process_step
begins most ar =
    both (first_solo Place.report (clears most 0 ar))
      (second_solo Place.loop (moves _ _ rests refl))

-- One turn of each.
round :
    (most j : ℕ) (ar : ℕ → ℕ)
    → ar 0 ≡ j * 2
    → j * 2 + 1 < most
    → Leads most (at_loops ar) (at_loops (bumped (bumped ar)))
round most j ar here more =
    both
      (first_solo Place.loop
        (chained (tests most 0 ar (omega arith)) (turn_taken most 0 ar (omega arith))))
      (second_solo Place.loop (
        chained (tests most 1 (bumped ar) (omega arith))
          (turn_taken most 1 (bumped ar) (omega arith))))

counts :
    (most j : ℕ) (ar : ℕ → ℕ)
    → j * 2 ≤ most
    → (ar' : ℕ → ℕ) × Leads most (at_start ar) (at_loops ar') × (ar' 0 ≡ j * 2)
counts most zero ar le = (cleared ar, begins most ar, refl)
counts most (suc j) ar le =
    let (ar', run, here) = counts most j ar (omega arith) in
    (bumped (bumped ar'), both run (round most j ar' here (omega arith)), omega (arith, here))

-- For every even and positive `ITER`, and whatever the segment holds at first, there is a run at whose end both
-- processes are behind their loops and `ar[0][0]` is `ITER + 1`: the loops do not end at `ITER`.
pub turns_past :
    (h : ℕ) (ar : ℕ → ℕ)
    → (s : Shared) × Leads (h * 2 + 2) (at_start ar) s
      × (s.first ≡ Place.end)
      × (s.second ≡ Place.end)
      × (s.ar 0 ≡ h * 2 + 3)
turns_past h ar =
    let most = h * 2 + 2 in
    let (ar', run, here) = counts most h ar (omega arith) in
    let ar'' = bumped ar' in
    let ar''' = bumped ar'' in
    (
      record { ar = bumped ar'''; first = Place.end; second = Place.end },
      both run (
          both
            (first_solo Place.loop (
              chained (tests most 0 ar' (omega arith))
                (chained (turn_taken most 0 ar' (omega arith)) (tests most 0 ar'' (omega arith)))))
            (both
              (second_solo Place.parity
                (chained (tests most 1 ar'' (omega arith)) (turn_taken most 1 ar'' (omega arith))))
              (both
                (first_solo Place.loop (
                  chained (turn_taken most 0 ar''' (omega arith))
                    (ends most 0 (bumped ar''') (omega arith))))
                (second_solo Place.end (ends most 1 (bumped ar''') (omega arith)))))),
      refl,
      refl,
      omega (arith, here),
    )
