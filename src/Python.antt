-- ===== src/Python.antt =====
-- What the program takes from Python: unbounded integers, the classes of characters of `str`, and
-- `float`, whose values and arithmetic are parameters of the model.
pub mod Int
pub mod Unicode
pub mod Float
pub mod Dict
