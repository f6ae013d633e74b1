-- ===== src/Lww/Cluster/Reads.antt =====
-- What a client reads of a replica of 3/server to which nothing is under way.
use Prim.Native.String.{◌++◌ as ◌+str◌}
use mathlib.Core.List.{Memᴰ}
use mathlib.Core.List.Perm
use tors_hw.Base.{
  ℕ, ◌<◌, ◌≡◌, ◌≢◌, inl, inr, refl, sym, ap, subst, ◌∙◌, String, Option, none, some, List, [], ◌∷◌,
  ok, length, All-Memᴰ, Response, key_value, if◌then◌else◌, Bool-cases, Option-cases, arith,
}
use tors_hw.Lww.Clock.{TTimestamp}
use tors_hw.Lww.Clock.Order.{compare-eq, ≺_trans}
use tors_hw.Lww.Db.{TVal, TDb, new_db}
use tors_hw.Lww.Server.{BroadcastRequest, not_found}
use tors_hw.Lww.Server.Paths.{read_of, handle_get_reads}
use tors_hw.Lww.Receive.{receive, stored, NoClash, Distinct}
use tors_hw.Lww.Receive.Joins.{ts-stored, Distinct-Perm}
use tors_hw.Lww.Receive.Latest.{◌≼◌, receive_latest}
use tors_hw.Lww.Receive.Convergence.{receive_converges}
use tors_hw.Lww.Launch.{Incoming, serve}
use tors_hw.Lww.Launch.Routes.{serve_get}
use tors_hw.Lww.Cluster.{Cluster, init, address, Reach}
use tors_hw.Lww.Cluster.Agreement.{Reach-IsConsistent, handled_all}
use tors_hw.Lww.Cluster.Routing.{occurrences}

-- The newest of the writes to a key, if there is any.
abbrev pub Newest : List BroadcastRequest → String → Option BroadcastRequest → Type 0
Newest rs key none = (r : BroadcastRequest) → Memᴰ r rs → r.key ≢ key
Newest rs key (some r) =
    Memᴰ r rs
    × (r.key ≡ key)
    × ((r' : BroadcastRequest) → Memᴰ r' rs → r'.key ≡ key → r'.val.ts ≼ r.val.ts)

-- What a client is told of it.
abbrev pub told : String → Option BroadcastRequest → Response
told key none = not_found
told key (some r) =
    if r.val.deleted then not_found else record { status = 200; payload = key_value key r.val.val }

≼_antisym : (a b : TTimestamp) → a ≼ b → b ≼ a → a ≡ b
≼_antisym a b h k = ground (arith, ≺_trans a b a, compare-eq a a)

same_request :
    (rs : List BroadcastRequest) (a b : BroadcastRequest)
    → Distinct rs
    → Memᴰ a rs
    → Memᴰ b rs
    → a.key ≡ b.key
    → a.val.ts ≡ b.val.ts
    → a ≡ b
same_request [] a b d m m' k t = elim m [ ]
same_request (r ∷ rs) a b d (Memᴰ.head e) (Memᴰ.head e') k t = e ∙ sym e'
same_request (r ∷ rs) a b d (Memᴰ.head e) (Memᴰ.tail m) k t = absurd (
    All-Memᴰ (NoClash r) b rs d.0 m (ap (λ (q : BroadcastRequest). q.key) (sym e) ∙ k)
      (ap (λ (q : BroadcastRequest). q.val.ts) (sym e) ∙ t))
same_request (r ∷ rs) a b d (Memᴰ.tail m) (Memᴰ.head e) k t = absurd (
    All-Memᴰ (NoClash r) a rs d.0 m (ap (λ (q : BroadcastRequest). q.key) (sym e) ∙ sym k)
      (ap (λ (q : BroadcastRequest). q.val.ts) (sym e) ∙ sym t))
same_request (r ∷ rs) a b d (Memᴰ.tail m) (Memᴰ.tail m') k t = same_request rs a b d.1 m m' k t

-- The storage after all writes.
Newest-stored :
    (rs : List BroadcastRequest) (db : TDb) (key : String) (r : BroadcastRequest)
    → Distinct rs
    → receive rs new_db ≡ (ok tt, db)
    → Newest rs key (some r)
    → db.storage key ≡ some (stored r)
Newest-stored rs db key r d h (there, at, above) =
    let (covers, from) = receive_latest rs db h in
    let (v, holds, newer) = covers r there in
    let (r', there', at', asked) = from r.key v holds in
    let le : r'.val.ts ≼ r.val.ts = above r' there' (at' ∙ at) in
    let times : r.val.ts ≡ r'.val.ts =
      ≼_antisym r.val.ts r'.val.ts
        (subst (λ t. r.val.ts ≼ t) (ap (λ (w : TVal). w.ts) (sym asked) ∙ ts-stored r') newer) le in
    let same : r ≡ r' = same_request rs r r' d there there' (sym at') times in
    ap db.storage (sym at) ∙ holds ∙ ap some (sym asked) ∙ ap (λ q. some (stored q)) (sym same)

none_stored :
    (rs : List BroadcastRequest) (db : TDb) (key : String)
    → receive rs new_db ≡ (ok tt, db)
    → Newest rs key none
    → db.storage key ≡ none
none_stored rs db key h absent = elim (Option-cases (db.storage key)) [
  | inl free ↦ free
  | inr (v, holds) ↦
      let (r, there, at, _) = (receive_latest rs db h).1 key v holds in absurd (absent r there at)
]

read_stored :
    (key : String) (r : BroadcastRequest) → read_of key (some (stored r)) ≡ told key (some r)
unfolding stored
read_stored key r = elim (Bool-cases r.val.deleted) [
  | inl gone ↦ rw gone refl
  | inr there ↦ rw there refl
]

read_of-Newest :
    (rs : List BroadcastRequest) (db : TDb) (key : String) (o : Option BroadcastRequest)
    → Distinct rs
    → receive rs new_db ≡ (ok tt, db)
    → Newest rs key o
    → read_of key (db.storage key) ≡ told key o
read_of-Newest rs db key none d h newest = ap (read_of key) (none_stored rs db key h newest)
read_of-Newest rs db key (some r) d h newest =
    ap (read_of key) (Newest-stored rs db key r d h newest) ∙ read_stored key r

module _ (config : List String)
    (once : (j : ℕ) → j < length config → occurrences (address config j) config ≡ 1) where
  -- In a cluster whose configuration lists each address once, after any writes that name no key
  -- twice, with clocks below 2^64 - 1, and any deliveries, a replica to which nothing is under way
  -- answers a request whose path names a key by the newest write to it anywhere: 200 and its value, or 404
  -- where that was a deletion or where there is none; nothing changes. The key is not empty, and the
  -- path is one that net/http does not redirect.
  pub quiet_replica_reads :
      (clean : String → String) (s : Cluster) (i : ℕ) (request : Incoming) (key : String)
      (newest : Option BroadcastRequest)
      → Reach config (init config) s
      → i < length config
      → (s.replica i).pending ≡ []
      → request.path ≡ ◌+str◌ "/get/" key
      → clean request.path ≡ request.path
      → key ≢ ""
      → Newest s.issued key newest
      → serve clean request (s.replica i).state
        ≡ some (record { response = ok (told key newest); state = (s.replica i).state; sends = [] })
  quiet_replica_reads clean s i request key newest reach h quiet path cleaned named latest =
      let v = Reach-IsConsistent config once reach in
      let all = handled_all config once i v h quiet in
      let d = Distinct-Perm (Perm.symm all) v.distinct in
      let (same, _) = receive_converges (s.replica i).handled s.issued all d in
      let state = (s.replica i).state in
      serve_get clean request key state cleaned path
      ∙ ap (λ r. some (record { response = ok r; state = state; sends = [] }))
          (handle_get_reads key state named
            ∙ read_of-Newest s.issued state.db key newest v.distinct (sym same ∙ v.replayed i h)
                latest)
