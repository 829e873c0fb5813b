-- ===== src/PriceFeed/Nodes.antt =====
-- The actor of src/domain/price_feed.rs: the node that it asks, and the prices that it holds. The
-- request and the deserialisation of the answer are not modelled.
use Prim.Native.String.{◌++◌}
use risq.Base.{
  ℕ, ◌%◌, ◌<◌, zero, suc, String, ◌≡◌, refl, Bool, true, false, Option, none, some, is_some, List,
  [], ◌∷◌, length, ◌>>=◌, arith,
}
use risq.Base.HashMap.{HashMap}
use risq.Capability.{price_nodes}
use risq.Offer.{PriceData}
use risq.PriceFeed.{update_prices}

pub record PriceFeed (F : Type 0) : Type 0 where
  pub price_data : HashMap String (PriceData F)
  pub nodes : List String

-- The element at a place; `none` is the panic.
abbrev get_elem? {ℓ} : {A : Type ℓ} → List A → ℕ → Option A
get_elem? [] i = none
get_elem? (x ∷ xs) zero = some x
get_elem? (x ∷ xs) (suc i) = get_elem? xs i

elem-is_some :
    (nodes : List String) (i : ℕ)
    → i < length nodes
    → is_some (get_elem? nodes i >>= λ node. some (node ++ "/getAllMarketPrices")) ≡ true
elem-is_some [] i h = absurd (omega (arith, h))
elem-is_some (n ∷ ns) zero h = refl
elem-is_some (n ∷ ns) (suc i) h = elem-is_some ns i (omega (arith, h))

in_range : (random : ℕ) (tor : Bool) → random % length (price_nodes tor) < length (price_nodes tor)
in_range random true = omega arith
in_range random false = omega arith

module _ {F : Type 0} where
  -- The state of `start`, with the port of the proxy.
  unfoldable pub start : Option ℕ → PriceFeed F
  start proxy_port = record { price_data = []; nodes = price_nodes (is_some proxy_port) }

  -- The request of `update_prices`, with the random number.
  unfoldable pub url : ℕ → PriceFeed F → Option String
  url random feed = do
    node ← get_elem? feed.nodes (random % length feed.nodes)
    some (node ++ "/getAllMarketPrices")

  -- What `update_prices` does with the answer, which is none after an error.
  unfoldable pub on_response : Option (List (PriceData F)) → PriceFeed F → PriceFeed F
  on_response none feed = feed
  on_response (some response) feed = record feed {
    price_data = update_prices response feed.price_data;
  }

  -- `Handler<GetCurrentPrices>`
  abbrev pub get_current_prices : PriceFeed F → HashMap String (PriceData F)
  get_current_prices feed = feed.price_data

  abbrev pub on_responses : List (Option (List (PriceData F))) → PriceFeed F → PriceFeed F
  on_responses [] feed = feed
  on_responses (r ∷ rs) feed = on_responses rs (on_response r feed)

  on_responses-nodes :
      (rs : List (Option (List (PriceData F)))) (feed : PriceFeed F)
      → (on_responses rs feed).nodes ≡ feed.nodes
  unfolding on_response
  on_responses-nodes [] feed = refl
  on_responses-nodes (none ∷ rs) feed = on_responses-nodes rs feed
  on_responses-nodes (some r ∷ rs) feed = on_responses-nodes rs (on_response (some r) feed)

  -- The choice of a node never fails.
  pub url-is_some :
      (proxy_port : Option ℕ) (rs : List (Option (List (PriceData F)))) (random : ℕ)
      → is_some (url random (on_responses rs (start proxy_port))) ≡ true
  unfolding url start
  url-is_some proxy_port rs random =
      rw (on_responses-nodes rs (start proxy_port))
        (elem-is_some (price_nodes (is_some proxy_port)) _ (in_range random (is_some proxy_port)))
