-- ===== src/StaticContent/Users.antt =====
-- The sessions of URLs.
use mathlib.Core.List.{append_assoc}
use getodac.Common.Bytes.{Bytes, codes, bytes_eq, bytes_eq_iff}
use getodac.Common.{
  ℕ, suc, ◌+◌, ◌-◌, ◌≡◌, ◌≢◌, ◌∙◌, refl, sym, ap, Bool, true, false, [], ◌∷◌, ◌++◌, some, ◌||◌, All,
  All-append, take, drop, length, ltb, lt→ltb, arith, length-append, take-length_append, Bool-cases,
  inl, inr,
}
use getodac.Exceptions.{ok}
use getodac.StaticContent.Containment.{IsRooted}
use getodac.StaticContent.Paths.Normal.{IsPlain, join_names-plain}
use getodac.StaticContent.Paths.{
  FilePath, parse_path, append_path, join_names, kind_of, plain, dot, dot_dot, lexically_normal,
}
use getodac.StaticContent.Urls.{user_end, user_session}
use getodac.Utils.Split.Search.{find_char-first}
use getodac.Utils.Url.{unescape_url}

user_end-slash :
    (user file : Bytes)
    → All (λ c. c ≢ b'/') user
    → user_end (codes "/~" ++ user ++ b'/' ∷ file) ≡ length user + 2
unfolding user_end
user_end-slash user file h =
    let found = find_char-first b'/' (b'~' ∷ user) file ((λ e. ground arith), h) in
    rw (found, user_end) (omega arith)

public_html-root :
    (base : FilePath) (u : Bytes)
    → IsRooted base
    → IsPlain u
    → append_path
        (append_path base (record { absolute = false; names = u ∷ [] }))
        (record { absolute = false; names = codes "public_html" ∷ [] })
      ≡ record { absolute = true; names = base.names ++ u ∷ codes "public_html" ∷ [] }
unfolding append_path
public_html-root base u rooted h =
    let ph = codes "public_html" in
    let first : join_names base.names (u ∷ []) ≡ base.names ++ u ∷ [] =
      join_names-plain base.names [] u rooted.names in
    let second : join_names (base.names ++ u ∷ []) (ph ∷ []) ≡ (base.names ++ u ∷ []) ++ ph ∷ [] =
      join_names-plain (base.names ++ u ∷ []) [] ph
        (All-append IsPlain base.names (u ∷ []) rooted.names (h, tt)) in
    ap (λ a. record { absolute = a; names = join_names (join_names base.names (u ∷ [])) (ph ∷ []) })
      rooted.absolute
    ∙ ap (λ n. record { absolute = true; names = n })
        (ap (λ n. join_names n (ph ∷ [])) first
          ∙ second
          ∙ append_assoc base.names (u ∷ []) (ph ∷ []))

public_html-names :
    parse_path (codes "public_html") ≡ record { absolute = false; names = codes "public_html" ∷ [] }
unfolding parse_path
public_html-names = refl

no_dots : (u : Bytes) → IsPlain u → (bytes_eq u (codes ".") || bytes_eq u (codes "..")) ≡ false
unfolding kind_of
no_dots u h = elim (Bool-cases (bytes_eq u (codes "."))) [
  | inl one ↦
      absurd
        (let bad : dot ≡ plain = sym (ap kind_of ((bytes_eq_iff u (codes ".")).0 one)) ∙ h in cc)
  | inr other ↦ elim (Bool-cases (bytes_eq u (codes ".."))) [
    | inl two ↦ absurd (
        let bad : dot_dot ≡ plain = sym (ap kind_of ((bytes_eq_iff u (codes "..")).0 two)) ∙ h in
        cc)
    | inr one_more ↦ rw (other, one_more) refl
  ]
]

user_session-decoded :
    (base url u f : Bytes) (n : ℕ) (head : Bool)
    → IsRooted (parse_path base)
    → user_end url ≡ n
    → unescape_url (take (n - 2) (drop 2 url)) ≡ ok u
    → parse_path u ≡ record { absolute = false; names = u ∷ [] }
    → IsPlain u
    → ltb 1 (length url - n) ≡ true
    → unescape_url (drop (n + 1) url) ≡ ok f
    → user_session base url head
      ≡ ok (
          some (record {
            root = record {
              absolute = true;
              names = (parse_path base).names ++ u ∷ codes "public_html" ∷ [];
            };
            path = lexically_normal (append_path (parse_path []) (parse_path f));
            head = head;
          }))
unfolding user_session
user_session-decoded base url u f n head rooted end decoded single h long file_decoded =
    let root = public_html-root (parse_path base) u rooted h in
    let whole : append_path (append_path (parse_path base) (parse_path u))
          (parse_path (codes "public_html"))
        ≡ record {
          absolute = true;
          names = (parse_path base).names ++ u ∷ codes "public_html" ∷ [];
        } =
      ap (λ p. append_path (append_path (parse_path base) p) (parse_path (codes "public_html")))
        single
      ∙ ap
          (λ p.
            append_path
              (append_path (parse_path base) (record { absolute = false; names = u ∷ [] })) p)
          public_html-names
      ∙ root in
    rw (end, decoded, no_dots u h, long, file_decoded)
      (ap
        (λ r. ok (
          some (record {
            root = r;
            path = lexically_normal (append_path (parse_path []) (parse_path f));
            head = head;
          })))
        whole)

user_url-length :
    (user file : Bytes) (c : ℕ)
    → ltb 1 (length (codes "/~" ++ user ++ b'/' ∷ c ∷ file) - (length user + 2)) ≡ true
user_url-length user file c =
    lt→ltb 1 (length (codes "/~" ++ user ++ b'/' ∷ c ∷ file) - (length user + 2))
      (omega (arith, length-append user (b'/' ∷ c ∷ file)))

drop_user : (user s : Bytes) (d : ℕ) → drop (suc (length user)) (user ++ d ∷ s) ≡ s
drop_user [] s d = refl
drop_user (c ∷ user) s d = drop_user user s d

-- A URL /~user/file, of a user whose decoded name is a single plain name, is served from the
-- directory public_html of that user below the root of the pair, which is absolute and of plain
-- names, for a file that is not empty and that can be decoded.
pub user_session-plain :
    (base user file u f : Bytes) (c : ℕ) (head : Bool)
    → IsRooted (parse_path base)
    → All (λ c. c ≢ b'/') user
    → unescape_url user ≡ ok u
    → parse_path u ≡ record { absolute = false; names = u ∷ [] }
    → IsPlain u
    → unescape_url (c ∷ file) ≡ ok f
    → user_session base (codes "/~" ++ user ++ b'/' ∷ c ∷ file) head
      ≡ ok (
          some (record {
            root = record {
              absolute = true;
              names = (parse_path base).names ++ u ∷ codes "public_html" ∷ [];
            };
            path = lexically_normal (append_path (parse_path []) (parse_path f));
            head = head;
          }))
user_session-plain base user file u f c head rooted clear decoded single h file_decoded =
    let url = codes "/~" ++ user ++ b'/' ∷ c ∷ file in
    let width : length user + 2 - 2 ≡ length user = omega arith in
    let after : length user + 2 + 1 ≡ suc (suc (suc (length user))) = omega arith in
    user_session-decoded base url u f (length user + 2) head rooted
      (user_end-slash user (c ∷ file) clear)
      (ap unescape_url (
          ap (λ n. take n (user ++ b'/' ∷ c ∷ file)) width
          ∙ take-length_append user (b'/' ∷ c ∷ file))
        ∙ decoded)
      single h (user_url-length user file c)
      (ap unescape_url (ap (λ n. drop n url) after ∙ drop_user user (c ∷ file) b'/') ∙ file_decoded)
