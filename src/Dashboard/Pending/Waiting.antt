-- ===== src/Dashboard/Pending/Waiting.antt =====
-- get-dashboard-work-items.ts: the requests that wait, over the rows of the database.
use mathlib.Core.List.{Perm}
use godel_design.Prelude.{
  All, All-imp, ◌⊎◌, ◌≢◌, ◌≤◌, ◌∷◌, [], ℕ, zero, suc, ◌+◌, ◌-◌, min, List, ◌++◌, some, ◌≡◌, refl,
  map, take, length, length-append, length-map, length-take, arith, drop, take-map,
  take-append-drop,
}
use godel_design.Database.{SolicitudEstado, nueva, contactada, aprobada}
use godel_design.JsText.{Text}
use godel_design.JsSort.{Sign, IsAscending, sort, sort-perm, sort-IsAscending, length-sort}
use godel_design.Backend.{answer}
use godel_design.Dashboard.WorkItems.{
  SolicitudRow, map_solicitud_item, sort_pending_solicitudes, solicitud_rank, compare_solicitudes,
}
use godel_design.Dashboard.WorkItems.Ordered.{compare_solicitudes-RanksFirst}
use godel_design.Dashboard.Reads.{DashboardClient, resolve_count, resolve_rows}
use godel_design.Dashboard.Pending.{
  PendingGroup, pending_group, pending_solicitudes_limit, needs_unconverted,
  list_management_pending_solicitudes, list_pending_solicitud_rows_by_status,
  count_management_pending_solicitudes, other_rows,
}

-- The client answers from the requests that wait in each state.
pub record AnswersFrom {Number : Type 0} (client : DashboardClient Number)
    (waiting : SolicitudEstado → List SolicitudRow) : Type 0 where
  pub counts :
      (s : SolicitudEstado)
      → client.count_solicitudes s (needs_unconverted s) ≡ answer (some (length (waiting s)))
  pub lists :
      (s : SolicitudEstado) (limit : ℕ)
      → client.list_solicitudes s (needs_unconverted s) limit
        ≡ answer (some (take limit (waiting s)))

abbrev pub all_waiting : (SolicitudEstado → List SolicitudRow) → ℕ
all_waiting waiting =
    length (waiting nueva)
    + length (waiting SolicitudEstado.en_revision)
    + length (waiting contactada)
    + length (waiting aprobada)

abbrev others_waiting : (SolicitudEstado → List SolicitudRow) → ℕ → List SolicitudRow
others_waiting waiting n =
    take n (waiting SolicitudEstado.en_revision)
    ++ take n (waiting contactada)
    ++ take n (waiting aprobada)

-- The rows read: eight new requests at most, and of each other state as many as are missing.
abbrev pub read_rows : (SolicitudEstado → List SolicitudRow) → List SolicitudRow
read_rows waiting =
    let new = take pending_solicitudes_limit (waiting nueva) in
    new ++ others_waiting waiting (pending_solicitudes_limit - length new)

length-read_rows :
    (waiting : SolicitudEstado → List SolicitudRow)
    → min pending_solicitudes_limit (length (read_rows waiting))
      ≡ min pending_solicitudes_limit (all_waiting waiting)
length-read_rows waiting =
    let new = take pending_solicitudes_limit (waiting nueva) in
    let n = pending_solicitudes_limit - length new in
    let review = take n (waiting SolicitudEstado.en_revision) in
    let contacted = take n (waiting contactada) in
    let approved = take n (waiting aprobada) in
    omega (
      arith,
      length-append new (others_waiting waiting n),
      length-append (review ++ contacted) approved,
      length-append review contacted,
      length-append review (contacted ++ approved),
      length-append contacted approved,
      length-take pending_solicitudes_limit (waiting nueva),
      length-take n (waiting SolicitudEstado.en_revision),
      length-take n (waiting contactada),
      length-take n (waiting aprobada),
    )

-- No new request stands behind one that is not new.
abbrev pub AreNewFirst : List SolicitudRow → Type 0
AreNewFirst [] = Unit
AreNewFirst (x ∷ xs) = All (λ y. (x.status ≡ nueva) ⊎ (y.status ≢ nueva)) xs × AreNewFirst xs

ranked :
    (x y : SolicitudRow)
    → solicitud_rank x ≤ solicitud_rank y
    → (x.status ≡ nueva) ⊎ (y.status ≢ nueva)
unfolding solicitud_rank
ranked x y h = ground arith

IsAscending-AreNewFirst : (xs : List SolicitudRow) → IsAscending solicitud_rank xs → AreNewFirst xs
IsAscending-AreNewFirst [] h = tt
IsAscending-AreNewFirst (x ∷ xs) (below, h) =
    (All-imp (λ y m. ranked x y m) xs below, IsAscending-AreNewFirst xs h)

module _ {Number : Type 0} (client : DashboardClient Number)
    (waiting : SolicitudEstado → List SolicitudRow) (h : AnswersFrom client waiting) where
  counted : count_management_pending_solicitudes client ≡ some (all_waiting waiting)
  unfolding count_management_pending_solicitudes resolve_count
  counted =
      rw
        (
          h.counts nueva,
          h.counts SolicitudEstado.en_revision,
          h.counts contactada,
          h.counts aprobada,
        )
        refl

  listed :
      (s : SolicitudEstado) (limit : ℕ)
      → list_pending_solicitud_rows_by_status client s limit ≡ some (take limit (waiting s))
  unfolding list_pending_solicitud_rows_by_status resolve_rows
  listed s zero = refl
  listed s (suc limit) = rw (h.lists s (suc limit)) refl

  others : (remaining : ℕ) → other_rows client remaining ≡ some (others_waiting waiting remaining)
  unfolding other_rows list_pending_solicitud_rows_by_status resolve_rows
  others zero = refl
  others (suc n) =
      rw
        (
          h.lists SolicitudEstado.en_revision (suc n),
          h.lists contactada (suc n),
          h.lists aprobada (suc n),
        )
        refl

  -- Where the client answers from the waiting requests, the page shows as many of them as there are,
  -- at most eight, and counts the others. Those shown are the first of the rows read, put in
  -- order with the new ones first.
  pub list_management_pending_solicitudes_lem :
      (locale_compare : Text → Text → Sign)
      → (g : PendingGroup) × (list_management_pending_solicitudes client locale_compare ≡ some g)
        × (length g.items ≡ min pending_solicitudes_limit (all_waiting waiting))
        × (length g.items + g.more_count ≡ all_waiting waiting)
        × ((shown left_out : List SolicitudRow) × (g.items ≡ map map_solicitud_item shown)
            × AreNewFirst (shown ++ left_out)
            × Perm (shown ++ left_out) (read_rows waiting))
  unfolding list_management_pending_solicitudes sort_pending_solicitudes
  list_management_pending_solicitudes_lem locale_compare =
      let compare = compare_solicitudes locale_compare in
      let rows = read_rows waiting in
      let sorted = sort compare rows in
      let kept = take-map map_solicitud_item pending_solicitudes_limit sorted in
      let many = length-take pending_solicitudes_limit (map map_solicitud_item sorted) in
      let every = length-map sorted map_solicitud_item in
      let size = length-sort compare rows in
      let read = length-read_rows waiting in
      let split = take-append-drop pending_solicitudes_limit sorted in
      (
        pending_group (all_waiting waiting)
            (take pending_solicitudes_limit (map map_solicitud_item sorted)),
        rw (counted, listed nueva pending_solicitudes_limit, others _) refl,
        omega (arith, many, every, size, read),
        omega (arith, many, every, size, read),
        (
          take pending_solicitudes_limit sorted,
          drop pending_solicitudes_limit sorted,
          kept,
          rw split (
              IsAscending-AreNewFirst sorted (
                sort-IsAscending solicitud_rank compare rows
                  (compare_solicitudes-RanksFirst locale_compare))),
          rw split (sort-perm compare rows),
        ),
      )
