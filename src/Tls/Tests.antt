-- ===== src/Tls/Tests.antt =====
-- Runs of src/network/netssl.c with both parts configured.
use agentsmith.Base.{true, false, [], ◌∷◌, ◌≡◌, refl, if◌then◌else◌, ◌+◌}
use agentsmith.Base.Outcome.{ret, die, undefined}
use agentsmith.Program.Samples.{library, settings}
use agentsmith.Tls.{fresh, netssl_initialize}
use agentsmith.Tls.Secured.{is_usable, lacks_parameter, secured, netssl_initialize-secured}

netssl_initialize-secured_example : netssl_initialize library settings fresh ≡ (
    if lacks_parameter library settings
    then undefined
    else (if is_usable library settings then ret (secured library settings) else die 1))
netssl_initialize-secured_example = netssl_initialize-secured library settings

-- It is usable, but not with a version before 1.1.0.
usable :
    (is_usable library settings ≡ true)
    × (is_usable (record library { old = true }) settings ≡ false)
unfolding agentsmith.Base.Cstring.c_str
usable = (refl, refl)
