-- ===== src/Requests/Cancel.antt =====
-- `CancelPendingRequests` wakes every request; and a response that comes with the timeout.
use libre_connect.Base.{
  ℕ, ◌≡◌, refl, ◌∙◌, Bool, true, false, List, [], ◌∷◌, map, ◌==◌, eq→==, Option, none, some, ok,
  arith, Bool-cases, inl, inr,
}
use libre_connect.Wire.Text.{size_t}
use libre_connect.Package.{Package, get_value}
use libre_connect.ConcurrentMap.{ConcurrentUnorderedMap, get, erase, pop, pop_all}
use libre_connect.ConcurrentMap.Laws.{
  HasKeysOnce, get-insert_or_assign, get-erase, erase-HasKeysOnce,
}
use libre_connect.Requests.{
  Manager, inserting, set_flag, signal, signal_all, cancel_pending_requests, wait_look,
  finish_request, is_response, process, process_step,
}
use libre_connect.Requests.Answers.{response_lem}

raise_all : List ℕ → (ℕ → Bool) → ℕ → Bool
raise_all [] raised = raised
raise_all (flag ∷ flags) raised = raise_all flags (set_flag flag true raised)

signal_all_lem :
    (flags : List ℕ) (m : Manager)
    → signal_all flags m ≡ record m { raised = raise_all flags m.raised }
unfolding signal_all signal raise_all
signal_all_lem [] m = refl
signal_all_lem (flag ∷ flags) m = signal_all_lem flags (signal flag m)

raise_all-raised :
    (flags : List ℕ) (raised : ℕ → Bool) (flag : ℕ)
    → raised flag ≡ true
    → raise_all flags raised flag ≡ true
unfolding raise_all
raise_all-raised [] raised flag h = h
raise_all-raised (f ∷ flags) raised flag h =
    raise_all-raised flags (set_flag f true raised) flag (ground arith)

raise_all-get :
    (m : ConcurrentUnorderedMap ℕ) (raised : ℕ → Bool) (id flag : ℕ)
    → get id m ≡ some flag
    → raise_all (map (λ e. e.1) m) raised flag ≡ true
unfolding raise_all get
raise_all-get [] raised id flag h = cc
raise_all-get ((k, f) ∷ m) raised id flag h = elim (Bool-cases (k == id)) [
  | inl same ↦
      raise_all-raised (map (λ e. e.1) m) (set_flag f true raised) flag
        (rw (eq→== f flag (some_eq (rw same at h))) refl)
  | inr other ↦ raise_all-get m (set_flag f true raised) id flag (rw other at h)
]
  where
    some_eq : ◌≡◌ {A = Option ℕ} (some f) (some flag) → f ≡ flag
    some_eq e = cc

-- Behind `CancelPendingRequests` nothing waits and no response lies ready. A request that waited goes
-- on at its next look at its flag, also where its time is over, and returns without a package.
pub cancel_wakes :
    (m : Manager) (id flag : ℕ) (expired : Bool)
    → get id m.request_awaitable_map ≡ some flag
    → ((cancel_pending_requests m).request_awaitable_map ≡ [])
      × ((cancel_pending_requests m).request_package_map ≡ [])
      × ((wait_look flag expired (cancel_pending_requests m)).0 ≡ some true)
      × ((finish_request true id (wait_look flag expired (cancel_pending_requests m)).1).0 ≡ none)
unfolding cancel_pending_requests pop_all wait_look finish_request pop get
cancel_wakes m id flag expired h =
    let flags : List ℕ = map (λ e. e.1) m.request_awaitable_map in
    let emptied = record m { request_awaitable_map = []; request_package_map = [] } in
    rw (signal_all_lem flags emptied)
      (rw (raise_all-get m.request_awaitable_map m.raised id flag h) (refl, refl, refl, refl))

-- A response that is popped just before its request times out is stored behind the request: its
-- package stays in the map, though nothing waits for it.
pub late_response_stays :
    (m : Manager) (id flag : ℕ) (p p' : Package)
    → is_response p.header.flags ≡ true
    → get_value size_t p ≡ ok (id, p')
    → get id m.request_awaitable_map ≡ some flag
    → HasKeysOnce m.request_awaitable_map
    → (m' : Manager) × (process p m ≡ (inserting id flag p', m'))
      × ((finish_request false id m').0 ≡ none)
      × (get id
            (process_step
              (inserting id flag p')
              (finish_request false id m').1).1.request_package_map
          ≡ some p')
      × (get id
            (process_step
              (inserting id flag p')
              (finish_request false id m').1).1.request_awaitable_map
          ≡ none)
unfolding process_step finish_request
late_response_stays m id flag p p' r g a k =
    let m' = record m { request_awaitable_map = erase id m.request_awaitable_map } in
    (
      m',
      response_lem id flag p p' m r g a,
      refl,
      get-insert_or_assign id id p' (erase id m.request_package_map) ∙ rw (eq→== id id refl) refl,
      get-erase id id (erase id m.request_awaitable_map)
            (erase-HasKeysOnce id m.request_awaitable_map k)
          ∙ rw (eq→== id id refl) refl,
    )
