-- ===== src/Client/Cleared.antt =====
-- `clearFirewallRules` of internal/pve/firewall.go leaves no rule.
use pve_manage.Prelude.{ℕ, zero, suc, ◌≡◌, refl, sym, ◌∙◌, ap, List, [], ◌∷◌, ◌++◌, map, reverse}
use pve_manage.Prelude.Int.{ℤ, pos}
use mathlib.Core.List.{reverse-append, map-append, reverse-cons}
use mathlib.Core.Path.{subst}
use pve_manage.Text.{Text, itoa}
use pve_manage.Json.{Object}
use pve_manage.Sql.{Exec, ok, pure}
use pve_manage.Client.{Method, Requests}
use pve_manage.Client.Firewall.{send, pos_of, delete_rules, clear_firewall_rules}
use pve_manage.Client.Steps.{bind_runs, then_runs}

-- The positions of `n` rules.
abbrev pub upward : ℕ → List ℤ
upward zero = []
upward (suc n) = upward n ++ pos n ∷ []

map-reverse : {A B : Type 0} → (f : A → B) (xs : List A) → map f (reverse xs) ≡ reverse (map f xs)
map-reverse f [] = refl
map-reverse f (x ∷ xs) =
    ap (map f) (reverse-cons x xs)
    ∙ map-append f (reverse xs) (x ∷ [])
    ∙ ap (λ ys. ys ++ f x ∷ []) (map-reverse f xs)
    ∙ sym (reverse-cons (f x) (map f xs))

module _ {P : Type 0} (request : Requests P) (path_escape : Text → Text) (cluster_key : Text)
    (path : Text) (count : P → ℕ) where
  -- What Proxmox VE documents of a list of rules: a rule is addressed by its position, and the rules
  -- after one that is deleted move up.
  pub record IsRules : Type 0 where
    pub lists :
        (p : P) (found : List Object)
        → (request cluster_key Method.get path [] p).0 ≡ ok found
        → map pos_of found ≡ upward (count p)
    pub lists_only : (p : P) → count (request cluster_key Method.get path [] p).1 ≡ count p
    pub deletes :
        (p : P) (n : ℕ) (found : List Object)
        → count p ≡ suc n
        → (request cluster_key Method.delete (path ++ 47 ∷ itoa (pos n)) [] p).0 ≡ ok found
        → count (request cluster_key Method.delete (path ++ 47 ∷ itoa (pos n)) [] p).1 ≡ n

  module _ (api : IsRules) where
    abbrev remove : ℤ → Exec Text P (Unit {0})
    remove n = send request path_escape cluster_key Method.delete (path ++ 47 ∷ itoa n) []

    remove_last :
        (n : ℕ) (p : P) (u : Unit {0})
        → count p ≡ suc n
        → (remove (pos n) p).0 ≡ ok u
        → count (remove (pos n) p).1 ≡ n
    remove_last n p u e h =
        let (found, done, rest, same) =
          bind_runs (request cluster_key Method.delete (path ++ 47 ∷ itoa (pos n)) [])
            (λ _. pure tt) p u h in
        ap (λ r. count r.1) same ∙ api.deletes p n found e done

    abbrev Clears : List Object → P → Type 0
    Clears rules p =
        (u : Unit {0})
        → (delete_rules request path_escape cluster_key path rules p).0 ≡ ok u
        → count (delete_rules request path_escape cluster_key path rules p).1 ≡ 0

    delete_rules-Clears :
        (n : ℕ) (rules : List Object) (p : P)
        → count p ≡ n
        → map pos_of rules ≡ reverse (upward n)
        → Clears rules p
    unfolding delete_rules
    delete_rules-Clears zero [] p e h u k = e
    delete_rules-Clears zero (rule ∷ rules) p e h u k = absurd (cc)
    delete_rules-Clears (suc n) [] p e h u k =
        let z = h ∙ reverse-append (upward n) (pos n ∷ []) in absurd (cc)
    delete_rules-Clears (suc n) (rule ∷ rules) p e h u k =
        let both = h ∙ reverse-append (upward n) (pos n ∷ []) in
        let here : pos_of rule ≡ pos n = cc in
        let later : map pos_of rules ≡ reverse (upward n) = cc in
        let (a, removed, rest, same) =
          then_runs (remove (pos_of rule)) (delete_rules request path_escape cluster_key path rules)
            p u k in
        ap (λ r. count r.1) same
        ∙ delete_rules-Clears n rules _
            (subst (λ x. count (remove x p).1 ≡ n) (sym here)
              (remove_last n p a e (subst (λ x. (remove x p).0 ≡ ok a) here removed)))
            later u rest

    -- A run of `clearFirewallRules` that succeeds leaves no rule, where a rule is addressed by its
    -- position in the list and deleting the last one makes the list shorter by one: the positions
    -- that the listing has shown stay right since the code goes from the last one to the first.
    pub clear_firewall_rules_clears :
        (p : P) (u : Unit {0})
        → (clear_firewall_rules request path_escape cluster_key path p).0 ≡ ok u
        → count (clear_firewall_rules request path_escape cluster_key path p).1 ≡ 0
    unfolding clear_firewall_rules
    clear_firewall_rules_clears p u h =
        let (rules, listed, rest, same) =
          bind_runs (request cluster_key Method.get path [])
            (λ rules. delete_rules request path_escape cluster_key path (reverse rules)) p u h in
        ap (λ r. count r.1) same
        ∙ delete_rules-Clears (count p) (reverse rules) _ (api.lists_only p)
            (map-reverse pos_of rules ∙ ap reverse (api.lists p rules listed)) u rest
