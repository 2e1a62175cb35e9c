-- ===== src/Uri/RoundTrip.antt =====
-- The constructor of `uri` in horace/uri.cc takes every text apart and loses nothing of it.
use libholmes_horace.Common.{
  ℕ, ◌≤◌, ◌<◌, ◌≡◌, refl, inl, inr, List, ◌++◌, arith, ltb, Bool-cases, test_refl, length, take,
  ◌>>=◌, Result, ok,
}
use libholmes_horace.Common.Text.{find_if-Ends, take-length, Reached, Lacks, find_if-Lacks}
use libholmes_horace.Uri.Parts.{
  LacksIn, ends_scheme, starts_fragment, scheme_upto-Parsed, parse_authority-Parsed,
  parse_path-Parsed, parse_query-Parsed, never, parse_fragment-Parsed, Parsed, parsed,
}
use libholmes_horace.Uri.{ends_path, ends_authority, parse_scheme, uri, to_string, Uri}

-- What follows a part of the parser has what that part established.
Parsed-bind {ℓ κ ι} :
    {A : Type ℓ} {B : Type κ} {print : A → List ℕ} {Fine : A → Type 0} {Stop : ℕ → Type 0}
    {s : List ℕ} {start : ℕ} {first : Result (A × ℕ)} (Q : Result B → Type ι)
    (rest : A × ℕ → Result B)
    → Parsed print Fine Stop s start first
    → ((a : A) (end : ℕ)
        → end ≤ length s
        → take start s ++ print a ≡ take end s
        → Fine a
        → Stop end
        → Q (rest (a, end)))
    → Q (first >>= rest)
Parsed-bind Q rest (parsed a end le h fine stop) k = k a end le h fine stop

end_of_text : (s : List ℕ) (index : ℕ) → index ≤ length s → Reached never s index → index ≡ length s
end_of_text s index le reached = elim (Bool-cases (ltb index (length s))) [
  | inl t ↦ let below : index < length s = ground (arith, t) in let c = reached below in cc
  | inr t ↦ ground (arith, t)
]

-- No component has a character that ends it: no colon in the scheme, no slash, question mark or
-- number sign in the authority, neither of the latter in the path, no number sign in the query.
pub record IsSeparated (u : Uri) : Type 0 where
  pub scheme_lacks : LacksIn ends_scheme u.scheme
  pub authority_lacks : LacksIn ends_authority u.authority
  pub path_lacks : Lacks ends_path u.path
  pub query_lacks : LacksIn starts_fragment u.query

abbrev IsTakenApart : List ℕ → Result Uri → Type 0
IsTakenApart s r = (u : Uri) × (r ≡ ok u) × (to_string u ≡ s) × IsSeparated u

-- Every text is taken apart into a URI, which is printed as that text: nothing is lost or reordered,
-- no component has a character that ends it, and the constructor throws neither its internal error
-- nor any other.
pub to_string-uri : (s : List ℕ) → (u : Uri) × (uri s ≡ ok u) × (to_string u ≡ s) × IsSeparated u
unfolding uri parse_scheme to_string
to_string-uri s =
    Parsed-bind (IsTakenApart s) _
      (scheme_upto-Parsed s _ (find_if-Ends ends_scheme s 0) (find_if-Lacks ends_scheme s 0))
      λ scheme i1 le1 h1 fine1 stop1.
        Parsed-bind (IsTakenApart s) _ (parse_authority-Parsed s i1 le1)
          λ authority i2 le2 h2 fine2 stop2.
            Parsed-bind (IsTakenApart s) _ (parse_path-Parsed s i2 le2)
              λ path i3 le3 h3 fine3 stop3.
                Parsed-bind (IsTakenApart s) _ (parse_query-Parsed s i3 le3 stop3)
                  λ query i4 le4 h4 fine4 stop4.
                    Parsed-bind (IsTakenApart s) _ (parse_fragment-Parsed s i4 le4 stop4)
                      λ fragment i5 le5 h5 fine5 stop5.
                        let e = end_of_text s i5 le5 stop5 in
                        (
                          record {
                            scheme = scheme;
                            authority = authority;
                            path = path;
                            query = query;
                            fragment = fragment;
                          },
                          rw (e, test_refl (length s)) refl,
                          rw (h1, h2, h3, h4, h5, e) (take-length s),
                          record {
                            scheme_lacks = fine1;
                            authority_lacks = fine2;
                            path_lacks = fine3;
                            query_lacks = fine4;
                          },
                        )
