-- ===== src/Nginx/Sync/Served.antt =====
-- What the requests of `SyncUpstream` do to the servers of one upstream at one client. NGINX serves an
-- upstream from addresses with weights; an addition sets the weight of an address, and a removal takes
-- the address away.
use mlb_controller.Base.{
  true, false, ◌&&◌, ◌≡◌, refl, sym, ap, ◌∙◌, inl, inr, [], ◌∷◌, ◌++◌, Option, none, some, Str,
  ◌==◌, str_eq, str_beq_iff, if◌then◌else◌, ℤ, Bool-cases,
}
use mlb_controller.Base.GoMap
use mlb_controller.Base.GoMap.{GoMap}
use mlb_controller.Domain.Model.{Backend}
use mlb_controller.Nginx.Address.{backend_key, format_server_addr}
use mlb_controller.Nginx.Address.Format.{format_server_addr-backend_key}
use mlb_controller.Nginx.Plan.Laws.{after_removal, after_update}
use mlb_controller.Nginx.Plan.Totals.{IsKeyed}
use mlb_controller.Nginx.Sync.{Log, Request, list_upstreams, add_server, remove_server}

-- The weight that is served at an address; none where the address is not served.
abbrev pub Served : Type 0
Served = Str → Option ℤ

abbrev pub serve : Str → Request → Served → Served
serve name list_upstreams st = st
serve name (add_server up addr weight) st =
    λ x. if up == name && addr == x then some weight else st x
serve name (remove_server up addr) st = λ x. if up == name && addr == x then none else st x

-- The requests of a log to one client, one after the other.
abbrev pub serve_all : Str → Str → Log → Served → Served
serve_all url name [] st = st
serve_all url name ((client, r) ∷ log) st =
    serve_all url name log (if client == url then serve name r st else st)

pub serve_all-append :
    (url name : Str) (log more : Log) (st : Served)
    → serve_all url name (log ++ more) st ≡ serve_all url name more (serve_all url name log st)
serve_all-append url name [] more st = refl
serve_all-append url name ((client, r) ∷ log) more st =
    serve_all-append url name log more (if client == url then serve name r st else st)

abbrev pub addr_of : Backend → Str
addr_of b = format_server_addr b.ip b.port

abbrev pub adding : Str → Str → GoMap Backend → Log
adding url name [] = []
adding url name ((key, b) ∷ m) = (url, add_server name (addr_of b) b.weight) ∷ adding url name m

abbrev pub removing : Str → Str → GoMap Backend → Log
removing url name [] = []
removing url name ((key, b) ∷ m) = (url, remove_server name (addr_of b)) ∷ removing url name m

same : (s : Str) → (s == s) ≡ true
same s = (str_beq_iff s s).1 refl

pub addr-key : (b v : Backend) → (addr_of v == addr_of b) ≡ (backend_key v == backend_key b)
addr-key b v = elim (Bool-cases (backend_key v == backend_key b)) [
  | inl t ↦
      (str_beq_iff (addr_of v) (addr_of b)).1
        ((format_server_addr-backend_key v b).1 ((str_beq_iff (backend_key v) (backend_key b)).0 t))
      ∙ sym t
  | inr f ↦ elim (Bool-cases (addr_of v == addr_of b)) [
    | inr g ↦ g ∙ sym f
    | inl u ↦ absurd (
        clash (
          sym (
            (str_beq_iff (backend_key v) (backend_key b)).1
              ((format_server_addr-backend_key v b).0 ((str_beq_iff (addr_of v) (addr_of b)).0 u)))
          ∙ f))
  ]
]
  where
    clash : true ≡ false → ⊥
    clash q = cc

-- After the additions an address has the weight of its entry, or the weight it had.
pub adding-served :
    (url name : Str) (m : GoMap Backend) (st : Served) (b : Backend)
    → IsKeyed m
    → GoMap.IsMap m
    → serve_all url name (adding url name m) st (addr_of b)
      ≡ after_update (GoMap.lookup (backend_key b) m) (st (addr_of b))
unfolding GoMap.lookup
adding-served url name [] st b k h = refl
adding-served url name ((key, v) ∷ m) st b k h =
    ap
      (λ c.
        serve_all url name (adding url name m)
          (if c then serve name (add_server name (addr_of v) v.weight) st else st) (addr_of b))
      (same url)
    ∙ (adding-served url name m (serve name (add_server name (addr_of v) v.weight) st) b k.1 h.1
        ∙ rw (same name, addr-key b v, k.0)
            (elim (Bool-cases (backend_key v == backend_key b)) [
              | inl t ↦ rw t (
                  ap (λ o. after_update o (some v.weight))
                    (ap (λ j. GoMap.lookup j m)
                        (sym (k.0 ∙ (str_beq_iff (backend_key v) (backend_key b)).0 t))
                      ∙ h.0))
              | inr f ↦ rw f refl
            ]))

-- After the removals no entry's address is served, and any other as before.
pub removing-served :
    (url name : Str) (m : GoMap Backend) (st : Served) (b : Backend)
    → IsKeyed m
    → GoMap.IsMap m
    → serve_all url name (removing url name m) st (addr_of b)
      ≡ after_removal (GoMap.lookup (backend_key b) m) (st (addr_of b))
unfolding GoMap.lookup
removing-served url name [] st b k h = refl
removing-served url name ((key, v) ∷ m) st b k h =
    ap
      (λ c.
        serve_all url name (removing url name m)
          (if c then serve name (remove_server name (addr_of v)) st else st) (addr_of b))
      (same url)
    ∙ (removing-served url name m (serve name (remove_server name (addr_of v)) st) b k.1 h.1
        ∙ rw (same name, addr-key b v, k.0)
            (elim (Bool-cases (backend_key v == backend_key b)) [
              | inl t ↦ rw t (
                  ap (λ o. after_removal o none)
                    (ap (λ j. GoMap.lookup j m)
                        (sym (k.0 ∙ (str_beq_iff (backend_key v) (backend_key b)).0 t))
                      ∙ h.0))
              | inr f ↦ rw f refl
            ]))
