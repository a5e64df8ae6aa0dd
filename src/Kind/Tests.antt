-- ===== src/Kind/Tests.antt =====
-- Type arguments at concrete texts.
use serify.Base.{[], ◌∷◌, ◌≡◌, refl, lit, join, pos}
use serify.Kind.{split_top_level}
use serify.Kind.Split.{Parts, join-split_top_level}

-- a nested comma does not split
nested_comma : split_top_level (lit "a: map<b,c>,d") ≡ lit "a: map<b,c>" ∷ lit "d" ∷ []
unfolding split_top_level lit
nested_comma = refl

join-split_top_level_example :
    (join (b',' ∷ []) (split_top_level (lit "a: map<b,c>,d")) ≡ lit "a: map<b,c>,d")
    × Parts (pos 0) (split_top_level (lit "a: map<b,c>,d"))
join-split_top_level_example = join-split_top_level (lit "a: map<b,c>,d")
