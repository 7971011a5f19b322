-- ===== src/Examples/Sticky.antt =====
-- src/sticky.c on a table with one session: client 7 on WAN 2, stored at second 100.
use flux_wan.Base.{
  ℕ, ◌+◌, ◌<◌, ◌^◌, ◌≤◌, ◌≡◌, ◌∙◌, sym, refl, inl, inr, true, ◌==◌, if◌then◌else◌, replicate,
  get_or, arith,
}
use flux_wan.Sticky.{
  Table, done, failed, hash_ip, init, lookup, update_chain, insert, cleanup_expired,
}
use flux_wan.Sticky.Chain.{answer, refresh, live}
use flux_wan.Sticky.Refinement.{IsValid, view, total, init-IsValid, lookup-view}
use flux_wan.Sticky.Insert.{Inserts, insert-Inserts, lookup-insert}
use flux_wan.Sticky.Cleanup.{cleanup_expired-view}

empty-IsValid : IsValid (init 60)
empty-IsValid = (init-IsValid 60).0

room_left : total (init 60).buckets + 1 < 2 ^ 32
unfolding total init replicate
room_left = omega arith

insert-Inserts_example : Inserts empty-IsValid 7 100 2 true (insert true (init 60) 7 2 100)
insert-Inserts_example = insert-Inserts empty-IsValid 7 100 2 true room_left

abbrev table : Table
table = (insert true (init 60) 7 2 100).0

is_stored : (insert true (init 60) 7 2 100).1 ≡ done
unfolding insert update_chain init replicate get_or hash_ip
is_stored = refl

table-IsValid : IsValid table
table-IsValid = elim insert-Inserts_example [
  | inl (ok, client, valid, reads, counted) ↦ valid
  | inr (refused, same, why) ↦ (let bad : done ≡ failed = sym is_stored ∙ refused in ground arith)
]

soon : 150 ≤ 100 + (init 60).timeout_sec
unfolding init
soon = omega arith

lookup-insert_example : (lookup table 7 150).1 ≡ 2
lookup-insert_example =
    lookup-insert empty-IsValid 7 2 100 150 true room_left (omega arith) (omega arith) soon
      is_stored

lookup-view_example :
    ((lookup table 7 150).1 ≡ answer table.timeout_sec 150 (view table 7))
    × IsValid (lookup table 7 150).0
    × ((q : ℕ)
        → view (lookup table 7 150).0 q
          ≡ (if q == 7 then refresh table.timeout_sec 150 (view table 7) else view table q))
lookup-view_example = lookup-view table-IsValid 7 150 (λ e. omega arith)

cleanup_expired-view_example :
    IsValid (cleanup_expired table 150)
    × ((q : ℕ) → view (cleanup_expired table 150) q ≡ live table.timeout_sec 150 (view table q))
cleanup_expired-view_example = cleanup_expired-view table-IsValid 150
