-- ===== src/Cabi/Deaths.antt =====
-- scripts/check-c-abi.py: the deaths that each program shall die, by the case and its message.
use antfarm.Prelude.{List, [], ◌∷◌, some, String}
use antfarm.Cabi.{Step, execute}

abbrev pub Deaths : Type 0
Deaths = List (String × String)

-- for name, diagnostic in {...}.items(): execute(binary, name, death=diagnostic)
unfoldable pub deaths : String → Deaths → List Step
deaths binary [] = []
deaths binary ((name, diagnostic) ∷ rest) =
    execute binary (name ∷ []) (some diagnostic) ∷ deaths binary rest

abbrev pub core_deaths : Deaths
core_deaths =
    ("callback", "null payload callback")
    ∷ ("cost", "avgCost out of range")
    ∷ ("span", "null nonempty span")
    ∷ ("overflow", "fixed body size overflow")
    ∷ ("entry-overflow", "span size overflow")
    ∷ ("hook", "hook requires a callback")
    ∷ ("foreign", "foreign or null producer token")
    ∷ ("farm-live", "live consumers")
    ∷ ("token-live", "live small ticket")
    ∷ ("view-live", "destroy subscribed view")
    ∷ ("nested", "inside Farm callback")
    ∷ ("nested-hook", "inside Farm callback")
    ∷ []

abbrev pub actor_deaths : Deaths
actor_deaths =
    ("farm", "destroy Farm with actor runtimes")
    ∷ ("live", "destroy actor runtime with live owners")
    ∷ ("foreign", "foreign or null actor producer token")
    ∷ ("cost", "avgCost out of range")
    ∷ ("context", "actor context outside its callback")
    ∷ ("complete", "complete actor inbox node not owned")
    ∷ ("alignment", "allocator returned misaligned")
    ∷ ("set", "modify busy actor message")
    ∷ ("failure", "failure code out of range")
    ∷ []

abbrev pub wave_deaths : Deaths
wave_deaths =
    ("uninitialized", "publish uninitialized actor wave")
    ∷ ("operation", "null actor wave operation")
    ∷ ("hook", "hook requires a callback")
    ∷ ("begin", "reuse unfinished actor wave")
    ∷ ("destroy", "destroy unfinished actor wave")
    ∷ ("span", "invalid wave span")
    ∷ ("overflow", "invalid wave span")
    ∷ ("foreign", "foreign or null wave producer token")
    ∷ ("cost", "avgCost out of range")
    ∷ ("seal", "seal actor wave twice")
    ∷ ("sealed", "publish sealed actor wave")
    ∷ ("farm", "destroy Farm with actor waves")
    ∷ ("tail-begin", "reuse unfinished actor wave or completion callback")
    ∷ ("tail-destroy", "destroy unfinished actor wave or completion callback")
    ∷ []

abbrev pub private_deaths : Deaths
private_deaths =
    ("farm", "destroy Farm with private parks")
    ∷ ("live", "destroy nonempty private root park")
    ∷ ("cost", "avgCost out of range")
    ∷ ("outcome", "untracked park")
    ∷ ("disposition", "invalid private root disposition")
    ∷ ("fail", "private root fail: untracked park")
    ∷ ("context", "private context outside its callback")
    ∷ ("init-context", "private context outside its callback")
    ∷ ("authority", "unauthorized context")
    ∷ ("subset", "duplicate member")
    ∷ ("early", "wave active")
    ∷ ("leaf", "private leaf cannot suspend")
    ∷ []

abbrev pub forkjoin_deaths : Deaths
forkjoin_deaths =
    ("zero", "invalid children span")
    ∷ ("self", "self child")
    ∷ ("double", "current uncompleted run callback")
    ∷ ("outside", "current uncompleted run callback")
    ∷ ("join", "current uncompleted run callback")
    ∷ ("noreturn", "run returned without af_complete or af_fork")
    ∷ ("stale", "run must return the value af_fork/af_complete returned")
    ∷ ("joinvalue", "join without af_fork must return NULL")
    ∷ ("leafcomplete", "current uncompleted run callback")
    ∷ ("stop", "control operation inside runtime callback")
    ∷ ("destroy", "stopped dispatcher")
    ∷ ("uninitialized", "node must be initialized")
    ∷ []
