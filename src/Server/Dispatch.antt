-- ===== src/Server/Dispatch.antt =====
-- internal/server/dispatch.go: the command table and the checks before a handler runs.
use cachemoney.Base.{
  ℕ, ◌≤◌, ◌≡◌, refl, Bool, false, ◌||◌, Option, none, some, List, [], ◌∷◌, ltb, if◌then◌else◌,
  length, codes, bytes_eq, bytes_eq_iff, Bool-cases, ap, sym, ◌∙◌, inl, inr, arith,
}
use mathlib.Core.Option.{some-injective}
use cachemoney.Base.{get_elem?, suc, true}
use cachemoney.Resp.Writer.{Writer}
use cachemoney.Server.Replies.{ascii_upper, reply_unknown_command, reply_wrong_arity}

-- The handlers, by the commands that they answer.
pub data Handler : Type 0 where
  ping quit get_key set_key del_keys exists ttl_secs ttl_millis hello command_info config select :
      Handler

-- `max_args` is `none` where the table has -1.
pub record Command : Type 0 where
  pub name : List ℕ
  pub min_args : ℕ
  pub max_args : Option ℕ
  pub handler : Handler

abbrev row : List ℕ → ℕ → Option ℕ → Handler → Command
row name least most h = record { name = name; min_args = least; max_args = most; handler = h }

unfoldable pub command_table : List Command
command_table =
    row (codes "PING") 1 (some 2) ping
    ∷ row (codes "QUIT") 1 (some 1) quit
    ∷ row (codes "GET") 2 (some 2) get_key
    ∷ row (codes "SET") 3 (some 5) set_key
    ∷ row (codes "DEL") 2 none del_keys
    ∷ row (codes "EXISTS") 2 none exists
    ∷ row (codes "TTL") 2 (some 2) ttl_secs
    ∷ row (codes "PTTL") 2 (some 2) ttl_millis
    ∷ row (codes "HELLO") 1 none hello
    ∷ row (codes "COMMAND") 1 none command_info
    ∷ row (codes "CONFIG") 2 none config
    ∷ row (codes "SELECT") 2 (some 2) select
    ∷ []

-- `commandTable[verb]`
unfoldable pub lookup_command : List ℕ → List Command → Option Command
lookup_command verb [] = none
lookup_command verb (c ∷ cs) =
    let others = lookup_command verb cs in if bytes_eq c.name verb then some c else others

-- `cmd.maxArgs >= 0 && len(args) > cmd.maxArgs`
unfoldable pub too_many : Option ℕ → ℕ → Bool
too_many none n = false
too_many (some most) n = ltb most n

unfoldable pub bad_arity : Command → ℕ → Bool
unfolding too_many
bad_arity c n = ltb n c.min_args || too_many c.max_args n

-- What `dispatch` does with a frame: nothing, an error line on the open connection, or a handler.
pub data Route : Type 0 where
  ignored : Route
  unknown : List ℕ → Route
  wrong_arity : List ℕ → Route
  handled : Handler → Route

unfoldable pub route_command : Option Command → List ℕ → ℕ → Route
unfolding bad_arity
route_command none raw n = unknown raw
route_command (some c) raw n = if bad_arity c n then wrong_arity c.name else handled c.handler

unfoldable pub route : List (List ℕ) → Route
unfolding route_command
route [] = ignored
route (raw ∷ args) =
    route_command (lookup_command (ascii_upper raw) command_table) raw (length (raw ∷ args))

-- `dispatch`: the Writer afterwards and whether the connection closes; `run` is the handler, with
-- whether its error is not nil.
unfoldable pub dispatch :
    (Handler → List (List ℕ) → Writer → Writer × Bool) → List (List ℕ) → Writer → Writer × Bool
unfolding route
dispatch run args w = elim (route args) [
  | ignored ↦ (w, false)
  | unknown raw ↦ (reply_unknown_command raw w, false)
  | wrong_arity name ↦ (reply_wrong_arity name w, false)
  | handled h ↦ run h args w
]

lookup_command_sound :
    (verb : List ℕ) (cs : List Command) {c : Command}
    → lookup_command verb cs ≡ some c
    → (i : ℕ) × (get_elem? cs i ≡ some c) × (c.name ≡ verb)
unfolding lookup_command
lookup_command_sound verb [] h = cc
lookup_command_sound verb (d ∷ cs) {c} h = elim (Bool-cases (bytes_eq d.name verb)) [
  | inl here ↦
      let same : d ≡ c = some-injective _ _ (rw here at h) in
      (0, ap some same, ap (λ x. x.name) (sym same) ∙ (bytes_eq_iff d.name verb).0 here)
  | inr there ↦
      let (i, at_i, named) = lookup_command_sound verb cs (rw there at h) in (suc i, at_i, named)
]

-- The number of arguments, the name included, is within the window of a command.
pub record IsAdmitted (c : Command) (n : ℕ) : Type 0 where
  pub enough : c.min_args ≤ n
  pub not_many : (most : ℕ) → c.max_args ≡ some most → n ≤ most

good-IsAdmitted : (c : Command) (n : ℕ) → bad_arity c n ≡ false → IsAdmitted c n
unfolding bad_arity too_many
good-IsAdmitted c n h = record {
  enough = elim (Bool-cases (ltb n c.min_args)) [
    | inl few ↦ absurd (true_not_false (sym (rw few refl) ∙ h))
    | inr fits ↦ ground arith
  ];
  not_many = λ most e. elim (Bool-cases (ltb n c.min_args)) [
    | inl few ↦ absurd (true_not_false (sym (rw few refl) ∙ h))
    | inr fits ↦
        let below : ltb most n ≡ false = sym (rw (fits, e) refl) ∙ h in ground (arith, below)
  ];
}
  where
    true_not_false : true ≡ false → ⊥
    true_not_false e = cc

routed :
    (found : Option Command) (raw : List ℕ) (n : ℕ) {h : Handler}
    → route_command found raw n ≡ handled h
    → (c : Command) × (found ≡ some c) × (bad_arity c n ≡ false) × (c.handler ≡ h)
unfolding route_command
routed none raw n r = cc
routed (some c) raw n r = elim (Bool-cases (bad_arity c n)) [
  | inl bad ↦ let stop = rw bad at r in cc
  | inr good ↦ let run = rw good at r in (c, refl, good, cc)
]

-- A handler runs only on a frame whose first argument is, in any case of its letters, the name of a
-- row of the command table that has this handler, and whose number of arguments is within the window
-- of that row.
pub route_sound :
    (args : List (List ℕ)) {h : Handler}
    → route args ≡ handled h
    → (i : ℕ) × (c : Command) × (raw : List ℕ) × (rest : List (List ℕ)) × (args ≡ raw ∷ rest)
      × (get_elem? command_table i ≡ some c)
      × (c.name ≡ ascii_upper raw)
      × (c.handler ≡ h)
      × IsAdmitted c (length args)
unfolding route
route_sound [] r = cc
route_sound (raw ∷ rest) {h} r =
    let (c, found, good, runs) =
      routed (lookup_command (ascii_upper raw) command_table) raw (length (raw ∷ rest)) r in
    let (i, at_i, named) = lookup_command_sound (ascii_upper raw) command_table found in
    (i, c, raw, rest, refl, at_i, named, runs, good-IsAdmitted c (length (raw ∷ rest)) good)
