-- ===== src/Connector/Factory.antt =====
-- `getModuleFactory` of include/stonky/okx/okx_futures_exchange_connector.h, by which a program that
-- loads the library makes connectors.
use okx_cpp_api.Prelude.{◌≡◌, refl, Option, none, some, Bytes, codes}

-- `FactoryInfo`, the two members that are set.
pub record FactoryInfo : Type 0 where
  pub id : Bytes
  pub description : Bytes

-- `ModuleFactory` of stonky-cpp-common; `I` is what `createInstance` makes.
pub record ModuleFactories (F I : Type 0) : Type 0 where
  pub module_factory : FactoryInfo → F
  pub register_class_by_name : F → Bytes → I → F

-- `getModuleFactory` on `g_moduleFactory`: what it gives, and the factory that is kept. `name` is that of
-- the enumerator `OKXFutures`.
pub get_module_factory :
    {F I : Type 0} → ModuleFactories F I → Bytes → I → Option F → Option F × Option F
get_module_factory factories name create_instance none =
    let info : FactoryInfo = record { id = name; description = codes "OKX CEX - Futures" } in
    let factory =
      factories.register_class_by_name (factories.module_factory info) name create_instance in
    (some factory, some factory)
get_module_factory factories name create_instance (some factory) = (none, some factory)

-- The factory is given once.
get_module_factory_twice :
    {F I : Type 0} (factories : ModuleFactories F I) (name : Bytes) (create_instance : I)
    → let (first, kept) = get_module_factory factories name create_instance none in
      get_module_factory factories name create_instance kept ≡ (none, first)
unfolding get_module_factory
get_module_factory_twice factories name create_instance = refl
