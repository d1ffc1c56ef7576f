-- ===== src/Mesh/RouterRuns.antt =====
-- crates/oxmesh/src/core.rs and keyexpr.rs: tests of the definitions, and concrete instances.
use oxlens_sfu.Base.{
  suc, arith, ◌≡◌, refl, true, false, inl, inr, ltb, ◌↔◌, List, [], ◌∷◌, none, some, All,
}
use oxlens_sfu.Mesh.KeyExpr.{
  same, is_empty, contains, put_first, split, forbidden, valid_chunks, valid, concrete, next,
  at_end, round, intersects_from, intersects,
}
use oxlens_sfu.Mesh.KeyExpr.Matching.{Meet}
use oxlens_sfu.Mesh.KeyExpr.Meaning.{chunks_of, intersects_iff}
use oxlens_sfu.Mesh.Peering.{less, Node, on_accepted, on_dialed, my_hello}
use oxlens_sfu.Mesh.Peering.Crossing.{winner, link_of, crossing_dials}
use oxlens_sfu.Mesh.Tokens.{
  no_tokens, set_count, tok_add_on, tok_add, tok_del_on, tok_del, find_decl, replace_decl,
  set_decls, declare_on, declare, drop_decls, others, close,
}
use oxlens_sfu.Mesh.Tokens.Counted.{count, alive}
use oxlens_sfu.Mesh.Tokens.Redeclared.{tok-declared_again}
use oxlens_sfu.Mesh.Tokens.Histories.{
  TokenChange, step, IsConstant, tokens_after, AllConstant, tok-tokens_after,
}
use oxlens_sfu.Mesh.SubIndex.{Owner, same_owner, same_name, matching}
use oxlens_sfu.Mesh.SubIndex.Latest.{
  Change, index_after, latest, ValidChange, found, matching-index_after,
}
use oxlens_sfu.Mesh.Wire.Cursor.{Bytes}

-- `a/**`, `*/b` and `a/b`.
abbrev under_a : Bytes
under_a = 97 ∷ 47 ∷ 42 ∷ 42 ∷ []

abbrev ends_b : Bytes
ends_b = 42 ∷ 47 ∷ 98 ∷ []

abbrev a_b : Bytes
a_b = 97 ∷ 47 ∷ 98 ∷ []

intersects_tests :
    (intersects under_a ends_b ≡ true)
    × (intersects ends_b a_b ≡ true)
    × (intersects (97 ∷ []) under_a ≡ true)
    × (intersects (98 ∷ []) under_a ≡ false)
    × (valid (42 ∷ 42 ∷ 47 ∷ 42 ∷ 42 ∷ []) ≡ false)
    × (valid (97 ∷ 47 ∷ []) ≡ false)
unfolding intersects intersects_from round next at_end same is_empty valid forbidden contains
    valid_chunks split put_first
intersects_tests = (refl, refl, refl, refl, refl, refl)

intersects_iff_example :
    (intersects under_a ends_b ≡ true) ↔ Meet (chunks_of under_a) (chunks_of ends_b)
unfolding valid forbidden contains valid_chunks split put_first same is_empty
intersects_iff_example = intersects_iff under_a ends_b refl refl

-- A name that is subscribed twice, and another one.
abbrev some_changes : List Change
some_changes =
    Change.subscribe (Owner.sess 1, 5) under_a
    ∷ Change.subscribe (Owner.local 2, 2) a_b
    ∷ Change.subscribe (Owner.sess 1, 5) a_b
    ∷ []

some_changes-ValidChange : All ValidChange some_changes
unfolding ValidChange valid forbidden contains valid_chunks split put_first same is_empty
some_changes-ValidChange = (refl, (refl, (refl, _)))

matching-index_after_example :
    matching (index_after some_changes) a_b (Owner.sess 1, 5)
    ≡ found (latest some_changes (Owner.sess 1, 5)) a_b
unfolding valid forbidden contains valid_chunks split put_first same is_empty concrete
matching-index_after_example =
    matching-index_after some_changes a_b (Owner.sess 1, 5) some_changes-ValidChange refl refl

found-latest : found (latest some_changes (Owner.sess 1, 5)) a_b ≡ 1
unfolding found latest same_name same_owner intersects intersects_from round next at_end same
    is_empty
found-latest = refl

abbrev node_1 : Node
node_1 = record { node = 110 ∷ 49 ∷ []; router = true; boot = 5; links = λ n. none }

abbrev node_2 : Node
node_2 = record { node = 110 ∷ 50 ∷ []; router = true; boot = 9; links = λ n. none }

winner_1 : winner node_1 3 node_2 4 ≡ link_of node_1 3
unfolding winner less
winner_1 = refl

crossing_dials_example :
    ((on_accepted true
          (my_hello node_2 4 400 [] [])
          (on_dialed (my_hello node_2 3 400 [] []) 3 node_1)).links
        (110 ∷ 50 ∷ [])
      ≡ some (winner node_1 3 node_2 4))
    × ((on_dialed
            (my_hello node_2 3 400 [] [])
            3
            (on_accepted true (my_hello node_2 4 400 [] []) node_1)).links
          (110 ∷ 50 ∷ [])
        ≡ some (winner node_1 3 node_2 4))
    × ((on_accepted true
            (my_hello node_1 3 400 [] [])
            (on_dialed (my_hello node_1 4 400 [] []) 4 node_2)).links
          (110 ∷ 49 ∷ [])
        ≡ some (winner node_1 3 node_2 4))
    × ((on_dialed
            (my_hello node_1 4 400 [] [])
            4
            (on_accepted true (my_hello node_1 3 400 [] []) node_2)).links
          (110 ∷ 49 ∷ [])
        ≡ some (winner node_1 3 node_2 4))
unfolding same
crossing_dials_example =
    crossing_dials node_1 node_2 3 4 400 400 [] [] [] [] refl refl refl refl refl

abbrev token_a : Bytes
token_a = 97 ∷ []

-- Two sessions declare a token, one of them twice under the same name, and one of them is closed.
abbrev token_changes : List TokenChange
token_changes =
    TokenChange.closes 1
    ∷ TokenChange.declares (Owner.sess 1, 3) token_a
    ∷ TokenChange.declares (Owner.sess 2, 3) token_a
    ∷ TokenChange.declares (Owner.sess 1, 3) token_a
    ∷ []

token_changes-AllConstant : AllConstant token_changes
unfolding AllConstant IsConstant tokens_after step declare declare_on find_decl same_name same_owner
    tok_add tok_add_on set_count set_decls no_tokens same
token_changes-AllConstant = (_, (inr refl, (inl refl, (inl refl, _))))

tok-tokens_after_example :
    ((tokens_after token_changes).tok token_a ≡ count token_a (tokens_after token_changes).decls)
    × (alive (tokens_after token_changes).events token_a
        ≡ ltb 0 (count token_a (tokens_after token_changes).decls))
tok-tokens_after_example = tok-tokens_after token_changes token_a token_changes-AllConstant

one_token_left : (tokens_after token_changes).tok token_a ≡ 1
unfolding tokens_after step declare declare_on find_decl replace_decl same_name same_owner tok_add
    tok_add_on tok_del tok_del_on set_count set_decls no_tokens close drop_decls others same
one_token_left = refl

abbrev token_b : Bytes
token_b = 98 ∷ []

-- A session declares a token, and then another one under the same name.
abbrev one_token : List TokenChange
one_token = TokenChange.declares (Owner.sess 1, 3) token_a ∷ []

tok-declared_again_example :
    let t = tokens_after (TokenChange.declares (Owner.sess 1, 3) token_b ∷ one_token) in
    (t.tok token_a ≡ suc (count token_a t.decls))
    × (count token_b t.decls ≡ suc (t.tok token_b))
    × (alive t.events token_a ≡ true)
unfolding AllConstant IsConstant tokens_after step declare declare_on find_decl same_name same_owner
    tok_add tok_add_on set_count set_decls no_tokens same
tok-declared_again_example =
    tok-declared_again one_token (Owner.sess 1, 3) token_a token_b (inl refl, _) refl
      (λ e. absurd (ground arith))
