-- ===== src/Client/Paging.antt =====
-- `ListScheduledNotifications` of shared/pushward/client.go, and the bounds that the client puts on what it
-- is asked for. `fetch` is one request of a page by its cursor, with the page's items and the next cursor.
use pushward_integrations.Prelude.{
  ℕ, zero, suc, ◌*◌, ◌/◌, ◌≤◌, ◌≡◌, min, true, false, Option, none, some, List, [], ◌++◌, arith,
  if◌then◌else◌, Str, Duration, second,
}
use pushward_integrations.Prelude.Int.{ℤ, to_ℕ}
use pushward_integrations.Client.Errors.{is_blank}
use mathlib.Core.List.{append_assoc}

abbrev pub max_scheduled_list_pages : ℕ
max_scheduled_list_pages = 40

module _ {A : Type 0} (fetch : Str → Option (List A × Str)) where
  -- The loop, with the pages left, the cursor and the items so far.
  unfoldable pub pages_from : ℕ → Str → List A → Option (List A)
  pages_from zero cursor items = some items
  pages_from (suc left) cursor items = elim (fetch cursor) [
    | none ↦ none
    | some (page, next) ↦
        if is_blank next then some (items ++ page) else pages_from left next (items ++ page)
  ]

  unfoldable pub list_scheduled : Option (List A)
  unfolding pages_from
  list_scheduled = pages_from max_scheduled_list_pages [] []

  -- The listing from a cursor: its items, and the number of pages that they come in.
  pub data IsListing : Str → List A → ℕ → Type 0 where
    last :
        {cursor : Str} {page : List A} {next : Str}
        → fetch cursor ≡ some (page, next)
        → is_blank next ≡ true
        → IsListing cursor page 1
    more :
        {cursor : Str} {page : List A} {next : Str} {rest : List A} {n : ℕ}
        → fetch cursor ≡ some (page, next)
        → is_blank next ≡ false
        → IsListing next rest n
        → IsListing cursor (page ++ rest) (suc n)

  pages_from-listing :
      (left n : ℕ) (cursor : Str) (items xs : List A)
      → IsListing cursor xs n
      → n ≤ left
      → pages_from left cursor items ≡ some (items ++ xs)
  unfolding pages_from
  pages_from-listing zero n cursor items xs (last e b) h = absurd (omega arith)
  pages_from-listing zero n cursor items xs (more e b l) h = absurd (omega arith)
  pages_from-listing (suc left) n cursor items xs (last {page} {next} e b) h = ground (arith, e, b)
  pages_from-listing (suc left) n cursor items xs (more {page} {next} {rest} {n = k} e b l) h =
      ground (
        arith,
        e,
        b,
        pages_from-listing left k next (items ++ page) rest l (omega arith),
        append_assoc items page rest,
      )

  -- A listing of at most 40 pages is returned whole and in order.
  pub list_scheduled-whole :
      (xs : List A) (n : ℕ) → IsListing [] xs n → n ≤ 40 → list_scheduled ≡ some xs
  unfolding list_scheduled
  list_scheduled-whole xs n l h = pages_from-listing max_scheduled_list_pages n [] [] xs l h

-- The seconds of a long poll: whole ones, and at most 25.
abbrev pub notification_answer_wait_max : Duration
notification_answer_wait_max = 25 * second

unfoldable pub wait_seconds : ℤ → ℕ
wait_seconds wait = min (to_ℕ wait) notification_answer_wait_max / second
