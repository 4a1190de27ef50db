-- ===== src/Tests/Store.antt =====
-- An IMAP server in memory that keeps the flags of its only message, 7, and answers a SEARCH exactly.
use mail_transporter.Base.{
  ℕ, Bool, true, false, not, ◌&&◌, ◌||◌, ◌≡◌, ◌≢◌, refl, sym, ap, ◌∙◌, ◌↔◌, inl, inr, Option, none,
  some, List, [], ◌∷◌, Text, text, text_eq, text_eq→eq, lower, In, lookup, ok, ◌==◌, if◌then◌else◌,
  arith,
}
use mail_transporter.Imap.Client.{ImapClient}
use mail_transporter.Imap.Keywords.{carries}
use mail_transporter.Imap.Queue.{Flags, key, selects, IsFlagStore}

abbrev pub Only : Type 0
Only = List Text

abbrev pub flags_in : Only → Flags
flags_in w u = if u == 7 then some w else none

-- The flags without one keyword, in whatever case.
unfoldable pub cleared_of : Text → Only → Only
unfolding text_eq lower
cleared_of k [] = []
cleared_of k (t ∷ w) =
    let rest = cleared_of k w in if text_eq (lower t) (lower k) then rest else t ∷ rest

unfoldable pub is_found : Option Bool → List ℕ
is_found none = []
is_found (some true) = 7 ∷ []
is_found (some false) = []

abbrev first_of : List Text → Text
first_of [] = []
first_of (k ∷ _) = k

unfoldable pub only : ImapClient Only
unfolding cleared_of is_found text
only = record {
  create = λ w. (ok tt, w);
  login = λ w. (ok tt, w);
  select_inbox =
      λ readonly w. (ok (record { uidvalidity = 1; permanent_flags = text "\\*" ∷ [] }), w);
  logout = λ w. (ok tt, w);
  shutdown = λ w. (ok tt, w);
  has_capability = λ name w. (ok true, w);
  search = λ asked w. (ok (is_found (selects (key false) asked w)), w);
  fetch = λ uids keys w. (ok ((7, record { flags = some w; body = none; sections = [] }) ∷ []), w);
  add_flags = λ uids atoms w. (ok ((7, first_of atoms ∷ w) ∷ []), first_of atoms ∷ w);
  remove_flags = λ uids atoms w. (ok [], cleared_of (first_of atoms) w);
  find_trash = λ w. (ok none, w);
  folder_exists = λ name w. (ok false, w);
  create_folder = λ name w. (ok tt, w);
  move = λ uids folder w. (ok tt, w);
  copy = λ uids folder w. (ok tt, w);
  uid_expunge = λ uids w. (ok tt, w);
  idle = λ w. (ok tt, w);
  idle_check = λ timeout w. (ok 0, w);
  idle_done = λ w. (ok tt, w);
  noop = λ w. (ok tt, w);
}

there_iff : (w fs : Only) (u : ℕ) → flags_in w u ≡ some fs → (u ≡ 7) × (w ≡ fs)
there_iff w fs u h = ground arith

elsewhere : (w w' : Only) (v u : ℕ) → u ≡ 7 → v ≢ u → flags_in w' v ≡ flags_in w v
elsewhere w w' v u e other = ground arith

or_comm : (x y : Bool) → (x || y) ≡ (y || x)
or_comm true true = refl
or_comm true false = refl
or_comm false true = refl
or_comm false false = refl

absorbed : (c d : Bool) → (c && not d) ≡ ((d || c) && not d)
absorbed true true = refl
absorbed true false = refl
absorbed false true = refl
absorbed false false = refl

apart : (a c d : Bool) → (a ≡ true → d ≡ false) → (a || (c && not d)) ≡ ((a || c) && not d)
apart true c d h = sym (ap not (h refl))
apart false c d h = refl

carries-cleared_of :
    (t k : Text) (w : Only)
    → carries t (cleared_of k w) ≡ (carries t w && not (text_eq (lower t) (lower k)))
unfolding cleared_of carries
carries-cleared_of t k [] = refl
carries-cleared_of t k (s ∷ w) =
    by_first (text_eq (lower s) (lower k)) refl (carries-cleared_of t k w)
  where
    by_first :
        (b : Bool)
        → text_eq (lower s) (lower k) ≡ b
        → carries t (cleared_of k w) ≡ (carries t w && not (text_eq (lower t) (lower k)))
        → carries t (if b then cleared_of k w else s ∷ cleared_of k w)
          ≡ (carries t (s ∷ w) && not (text_eq (lower t) (lower k)))
    by_first true e rest =
        rest
        ∙ absorbed (carries t w) (text_eq (lower t) (lower k))
        ∙ ap
            (λ (x : Text).
              (text_eq (lower t) x || carries t w) && not (text_eq (lower t) (lower k)))
            (sym (text_eq→eq (lower s) (lower k) e))
    by_first false e rest =
        ap (λ (c : Bool). text_eq (lower t) (lower s) || c) rest
        ∙ apart (text_eq (lower t) (lower s)) (carries t w) (text_eq (lower t) (lower k))
            (λ h. ap (λ (x : Text). text_eq x (lower k)) (text_eq→eq (lower t) (lower s) h) ∙ e)

at_seven : (w : Only) (u : ℕ) → u ≡ 7 → flags_in w u ≡ some w
at_seven w u e = rw e refl

lookup_seven : {V : Type 0} (v : V) (u : ℕ) → u ≡ 7 → lookup u ((7, v) ∷ []) ≡ some v
lookup_seven v u e = rw e refl

is_found_iff :
    (criteria : List Text) (w : Only) (v : ℕ) (o : Option Bool)
    → selects (key false) criteria w ≡ o
    → In v (is_found o)
      ↔ ((fs : Only) × (flags_in w v ≡ some fs) × (selects (key false) criteria fs ≡ some true))
unfolding is_found
is_found_iff criteria w v (some true) e = (
  λ i. elim i [ inl here ↦ (w, at_seven w v here, e) | inr j ↦ absurd j ],
  λ (fs, at, chosen). inl (there_iff w fs v at).0,
)
is_found_iff criteria w v (some false) e = (
  λ i. absurd i,
  λ (fs, at, chosen).
      let same = (there_iff w fs v at).1 in
      no_some (sym e ∙ ap (λ (x : Only). selects (key false) criteria x) same ∙ chosen),
)
  where
    no_some : some false ≡ some true → ⊥
    no_some h = cc
is_found_iff criteria w v none e = (
  λ i. absurd i,
  λ (fs, at, chosen).
      let same = (there_iff w fs v at).1 in
      no_none (sym e ∙ ap (λ (x : Only). selects (key false) criteria x) same ∙ chosen),
)
  where
    no_none : none ≡ some true → ⊥
    no_none h = cc

pub only-IsFlagStore : IsFlagStore only flags_in
unfolding only carries
only-IsFlagStore = record {
  adds = λ u k w fs h.
      let (here, same) = there_iff w fs u h in
      (
        (7, k ∷ w) ∷ [],
        refl,
        (
          k ∷ w,
          at_seven (k ∷ w) u here,
          inr (lookup_seven (k ∷ w) u here),
          λ t. rw (← same) (or_comm (text_eq (lower t) (lower k)) (carries t w)),
        ),
        λ v other. elsewhere w (k ∷ w) v u here other,
      );
  removes = λ u k w fs h.
      let (here, same) = there_iff w fs u h in
      (
        [],
        refl,
        (
          cleared_of k w,
          at_seven (cleared_of k w) u here,
          inl refl,
          λ t. rw (← same) (carries-cleared_of t k w),
        ),
        λ v other. elsewhere w (cleared_of k w) v u here other,
      );
  fetches = λ u w fs h.
      let (here, same) = there_iff w fs u h in
      (
        (7, record { flags = some w; body = none; sections = [] }) ∷ [],
        refl,
        (
          record { flags = some w; body = none; sections = [] },
          lookup_seven _ u here,
          ap some same,
        ),
        λ v. refl,
      );
  searches = λ criteria w meant. (
    is_found (selects (key false) criteria w),
    refl,
    λ v. is_found_iff criteria w v _ refl,
    λ v. refl,
  );
}
