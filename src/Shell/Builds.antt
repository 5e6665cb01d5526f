-- ===== src/Shell/Builds.antt =====
-- Commands that use only what commands before them have written.
use antfarm.Prelude.{
  ◌≡◌, inl, inr, refl, sym, subst, List, [], ◌∷◌, ◌++◌, String, All, In, In-append,
}
use antfarm.Shell.{word, file, built, output, built_as, built_in, Command, words}

-- What a command writes.
abbrev pub makes : Command → List String
makes [] = []
makes (word s ∷ args) = makes args
makes (file s ∷ args) = makes args
makes (built s ∷ args) = makes args
makes (output s ∷ args) = s ∷ makes args
makes (built_in option s ∷ args) = makes args
makes (built_as option s ∷ args) = s ∷ makes args

-- The written files that a command runs or reads.
abbrev pub needs : Command → List String
needs [] = []
needs (word s ∷ args) = needs args
needs (file s ∷ args) = needs args
needs (built s ∷ args) = s ∷ needs args
needs (output s ∷ args) = needs args
needs (built_in option s ∷ args) = s ∷ needs args
needs (built_as option s ∷ args) = needs args

-- Every command has what it needs, of `made` and of what the commands before it write.
abbrev pub Ready : List String → List Command → Type 0
Ready made [] = Unit
Ready made (c ∷ cs) = All (λ p. In p made) (needs c) × Ready (makes c ++ made) cs

-- What a list of commands leaves.
abbrev pub made_by : List String → List Command → List String
made_by made [] = made
made_by made (c ∷ cs) = made_by (makes c ++ made) cs

abbrev pub Within : List String → List String → Type 0
Within made more = (p : String) → In p made → In p more

pub All-Within :
    (made more ps : List String)
    → Within made more
    → All (λ p. In p made) ps
    → All (λ p. In p more) ps
All-Within made more [] w h = tt
All-Within made more (p ∷ ps) w (m, h) = (w p m, All-Within made more ps w h)

append-Within :
    (new made more : List String) → Within made more → Within (new ++ made) (new ++ more)
append-Within [] made more w p m = w p m
append-Within (n ∷ new) made more w p (inl e) = inl e
append-Within (n ∷ new) made more w p (inr m) = inr (append-Within new made more w p m)

pub Ready-Within :
    (made more : List String) (cs : List Command) → Within made more → Ready made cs → Ready more cs
Ready-Within made more [] w h = tt
Ready-Within made more (c ∷ cs) w (a, h) = (
  All-Within made more (needs c) w a,
  Ready-Within (makes c ++ made) (makes c ++ more) cs (append-Within (makes c) made more w) h,
)

pub In-later : (new made : List String) → Within made (new ++ made)
In-later new made p m = (In-append p new made).1 (inr m)

pub made_by-Within : (made : List String) (cs : List Command) → Within made (made_by made cs)
made_by-Within made [] p m = m
made_by-Within made (c ∷ cs) p m =
    made_by-Within (makes c ++ made) cs p (In-later (makes c) made p m)

-- A list of commands behind another.
pub Ready-append :
    (made : List String) (cs ds : List Command)
    → Ready made cs
    → Ready (made_by made cs) ds
    → Ready made (cs ++ ds)
Ready-append made [] ds h k = k
Ready-append made (c ∷ cs) ds (a, h) k = (a, Ready-append (makes c ++ made) cs ds h k)

-- Two lists that do not need each other.
pub Ready-both :
    (made : List String) (cs ds : List Command)
    → Ready made cs
    → Ready made ds
    → Ready made (cs ++ ds)
Ready-both made cs ds h k =
    Ready-append made cs ds h (Ready-Within made (made_by made cs) ds (made_by-Within made cs) k)

-- Arguments that are neither written nor need to be.
abbrev pub IsPlain : Command → Type 0
IsPlain [] = Unit
IsPlain (word s ∷ args) = IsPlain args
IsPlain (file s ∷ args) = IsPlain args
IsPlain (built s ∷ args) = ⊥
IsPlain (output s ∷ args) = ⊥
IsPlain (built_in option s ∷ args) = ⊥
IsPlain (built_as option s ∷ args) = ⊥

pub words-IsPlain : (ss : List String) → IsPlain (words ss)
words-IsPlain [] = tt
words-IsPlain (s ∷ ss) = words-IsPlain ss

pub append-IsPlain : (args more : Command) → IsPlain args → IsPlain more → IsPlain (args ++ more)
append-IsPlain [] more h k = k
append-IsPlain (word s ∷ args) more h k = append-IsPlain args more h k
append-IsPlain (file s ∷ args) more h k = append-IsPlain args more h k
append-IsPlain (built s ∷ args) more h k = absurd h
append-IsPlain (output s ∷ args) more h k = absurd h
append-IsPlain (built_in option s ∷ args) more h k = absurd h
append-IsPlain (built_as option s ∷ args) more h k = absurd h

pub needs-append : (args more : Command) → IsPlain args → needs (args ++ more) ≡ needs more
needs-append [] more h = refl
needs-append (word s ∷ args) more h = needs-append args more h
needs-append (file s ∷ args) more h = needs-append args more h
needs-append (built s ∷ args) more h = absurd h
needs-append (output s ∷ args) more h = absurd h
needs-append (built_in option s ∷ args) more h = absurd h
needs-append (built_as option s ∷ args) more h = absurd h

pub makes-append : (args more : Command) → IsPlain args → makes (args ++ more) ≡ makes more
makes-append [] more h = refl
makes-append (word s ∷ args) more h = makes-append args more h
makes-append (file s ∷ args) more h = makes-append args more h
makes-append (built s ∷ args) more h = absurd h
makes-append (output s ∷ args) more h = absurd h
makes-append (built_in option s ∷ args) more h = absurd h
makes-append (built_as option s ∷ args) more h = absurd h

needs-words : (ss : List String) → needs (words ss) ≡ []
needs-words [] = refl
needs-words (s ∷ ss) = needs-words ss

-- A command of words needs nothing.
pub words-Ready :
    (made : List String) (ss : List String) (cs : List Command)
    → Ready made cs
    → Ready made (words ss ∷ cs)
words-Ready made ss cs h = (
  subst (λ ps. All (λ p. In p made) ps) (sym (needs-words ss)) tt,
  Ready-Within made (makes (words ss) ++ made) cs (In-later (makes (words ss)) made) h,
)

-- What commands joined of words need and make.
pub needs-All :
    (made : List String) (args more : Command)
    → All (λ p. In p made) (needs args)
    → All (λ p. In p made) (needs more)
    → All (λ p. In p made) (needs (args ++ more))
needs-All made [] more h k = k
needs-All made (word s ∷ args) more h k = needs-All made args more h k
needs-All made (file s ∷ args) more h k = needs-All made args more h k
needs-All made (built s ∷ args) more (m, h) k = (m, needs-All made args more h k)
needs-All made (output s ∷ args) more h k = needs-All made args more h k
needs-All made (built_in option s ∷ args) more (m, h) k = (m, needs-All made args more h k)
needs-All made (built_as option s ∷ args) more h k = needs-All made args more h k

pub words-needs : (made ss : List String) → All (λ p. In p made) (needs (words ss))
words-needs made [] = tt
words-needs made (s ∷ ss) = words-needs made ss

pub makes-In : (p : String) (args more : Command) → In p (makes more) → In p (makes (args ++ more))
makes-In p [] more m = m
makes-In p (word s ∷ args) more m = makes-In p args more m
makes-In p (file s ∷ args) more m = makes-In p args more m
makes-In p (built s ∷ args) more m = makes-In p args more m
makes-In p (output s ∷ args) more m = inr (makes-In p args more m)
makes-In p (built_in option s ∷ args) more m = makes-In p args more m
makes-In p (built_as option s ∷ args) more m = inr (makes-In p args more m)

-- What a command makes is there behind it.
pub In-made :
    (p : String) (c : Command) (made : List String) → In p (makes c) → In p (makes c ++ made)
In-made p c made m = (In-append p (makes c) made).1 (inl m)
