-- ===== src/Program/Secure.antt =====
-- Whatever the system answers, a start of src/main.c that gets as far as the log has set up the TLS contexts that the
-- threads assert to be there.
use agentsmith.Base.{
  Bool, true, false, ◌&&◌, some, ◌==◌, ◌≡◌, refl, inl, inr, Bool-cases, eq_of_test,
}
use agentsmith.Base.Outcome.{ret, IfReturns, bind-IfReturns, weaken-IfReturns, anything, returned}
use agentsmith.Slots.{unstarted}
use agentsmith.Records.{records_init}
use agentsmith.Exclude.Rules.{exclude_init}
use agentsmith.Watch.{Pcre, regex_prepare}
use agentsmith.Settings.{Settings}
use agentsmith.Signals.Setup.{signalhandler_setup}
use agentsmith.Tls.Secured.{client_context, server_context}
use agentsmith.Program.{
  CommandLine, BootEnv, System, threads_start, informs_agents, start_tls, start_agents,
  start_client, set_up, read_exclude,
}
use agentsmith.Program.Starting.{contexts}
use agentsmith.Program.Kept.{skip-IfReturns, start_tls-IfReturns}

-- A client that runs has its context, and so has a server that is configured.
pub record IsSecure (e : BootEnv) (s : Settings) (y : System) : Type 0 where
  pub client : y.client.started ≡ true → y.tls.client ≡ some (client_context e.openssl s)
  pub server : s.numbers.server ≡ 1 → y.tls.server ≡ some (server_context e.openssl s)

first_of : (a b : Bool) → (a && b) ≡ true → a ≡ true
first_of true b h = refl
first_of false b h = h

start_client-informs :
    (e : BootEnv) (s : Settings)
    → IfReturns (λ c. c.started ≡ true → s.numbers.inform ≡ 1) (start_client e s)
unfolding start_client
start_client-informs e s = elim (Bool-cases (informs_agents s)) [
  | inr h ↦ rw (h, IfReturns) (λ k. cc)
  | inl h ↦
      rw (h, IfReturns)
        (weaken-IfReturns (λ c. Unit) _ (start_agents e s.inform_agents)
          (λ c _ _. eq_of_test _ _ (first_of _ _ h)) (anything (start_agents e s.inform_agents)))
]

set_up-IfReturns :
    (p : Pcre) (e : BootEnv) (l : CommandLine) (s : Settings)
    → IfReturns (IsSecure e s) (set_up p e l s)
unfolding set_up
set_up-IfReturns p e l s = skip-IfReturns (IsSecure e s) (regex_prepare p) _ (λ u.
    elim (Bool-cases l.testonly) [
      | inl h ↦ rw (h, IfReturns) tt
      | inr h ↦
          rw (h, IfReturns)
            (skip-IfReturns (IsSecure e s) (records_init e.records_calloc e.records_mutex unstarted)
              _
              (λ v.
                bind-IfReturns (λ t. t ≡ contexts e s) (IsSecure e s) (start_tls e.openssl s) _
                  (start_tls-IfReturns e s)
                  (λ t k.
                    skip-IfReturns (IsSecure e s)
                      (exclude_init e.exclude_calloc e.exclude_mutex unstarted) _
                      (λ empty.
                        skip-IfReturns (IsSecure e s) (read_exclude e.reader s empty) _ (λ rules.
                          skip-IfReturns (IsSecure e s) (signalhandler_setup e.signals) _
                            (λ handlers. skip-IfReturns (IsSecure e s) (threads_start e s) _ (λ _.
                              bind-IfReturns (λ c. c.started ≡ true → s.numbers.inform ≡ 1)
                                (IsSecure e s) (start_client e s) _ (start_client-informs e s)
                                (λ c informs. record {
                                  client = λ started. rw k (client_of e s (informs started));
                                  server = λ h. rw k (server_of e s h);
                                }))))))))
    ])
  where
    client_of :
        (e : BootEnv) (s : Settings)
        → s.numbers.inform ≡ 1
        → (contexts e s).client ≡ some (client_context e.openssl s)
    client_of e s h = rw h refl

    server_of :
        (e : BootEnv) (s : Settings)
        → s.numbers.server ≡ 1
        → (contexts e s).server ≡ some (server_context e.openssl s)
    server_of e s h = elim (Bool-cases (s.numbers.inform == 1)) [
      | inl i ↦ rw (i, h) refl
      | inr i ↦ rw (i, h) refl
    ]

-- Whatever the system answers, when `main` has come to the log and the client runs, the context of the client is there,
-- and when a server is configured that of the server is, each with the CA file, the certificate and the key of the
-- configuration and with the demand of a certificate of every peer. Each has the CRL of the configuration exactly if
-- `X509_STORE_add_crl` succeeds, and checks it exactly if `X509_STORE_set1_param` does.
pub set_up-IsSecure :
    (p : Pcre) (e : BootEnv) (l : CommandLine) (s : Settings) (y : System)
    → set_up p e l s ≡ ret y
    → IsSecure e s y
set_up-IsSecure p e l s y h = returned (IsSecure e s) (set_up p e l s) h (set_up-IfReturns p e l s)
